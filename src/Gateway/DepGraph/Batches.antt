-- ===== src/Gateway/DepGraph/Batches.antt =====
-- gateway/core/depgraph_queue.go, `batchLoop`: the batches handed to the dependency manager.
use fabric_x_evm_lfx.Prelude.{
  ℕ, ◌+◌, ◌≤◌, ◌<◌, ◌≡◌, refl, sym, ap, subst, ◌∙◌, inl, inr, Bool, true, false, not, ◌&&◌, List,
  [], ◌∷◌, ◌++◌, append-nil, append_assoc, arith, length, leb, if◌then◌else◌, Bool-cases, nat_eq,
  bytes_eq,
}

-- The state of the loop: what waits, the number of the last batch, the batches that the channel to the
-- manager took, and whether the context is done.
pub record Batcher (P : Type 0) : Type 0 where
  pub batch_threshold : ℕ
  pub batch_id : ℕ
  pub pending : List P
  pub incoming : List (ℕ × List P)
  pub done : Bool

-- What the loop meets: a transaction from the endorsers or the ticker, each with which case of `flush`
-- would run if both could, true for the one that discards; the end of the context; and the case of the
-- loop that returns.
pub data Event (P : Type 0) : Type 0 where
  endorsed : P → Bool → Event P
  tick : Bool → Event P
  cancels : Event P
  returns : Event P

module _ {P : Type 0} where
  -- `flush`: the batch takes the next number, and is sent, or is discarded if the context is done and that
  -- case runs; 64 bits are never exhausted by the batches of one process.
  unfoldable pub flush : Bool → Batcher P → Batcher P
  flush discards b = elim b.pending [
    | [] ↦ b
    | p ∷ ps ↦ record b {
      batch_id = b.batch_id + 1;
      pending = [];
      incoming =
          if b.done && discards then b.incoming else b.incoming ++ (b.batch_id + 1, b.pending) ∷ [];
    }
  ]

  -- One turn of the loop that does not return.
  unfoldable pub turn : Event P → Batcher P → Batcher P
  unfolding flush
  turn (tick discards) b = flush discards b
  turn (endorsed p discards) b =
      let next = record b { pending = b.pending ++ p ∷ [] } in
      if leb b.batch_threshold (length next.pending) then flush discards next else next
  turn cancels b = record b { done = true }
  turn returns b = b

  -- The loop returns only once the context is done.
  unfoldable pub batch_loop : List (Event P) → Batcher P → Batcher P
  unfolding turn
  batch_loop [] b = b
  batch_loop (e ∷ es) b =
      let rest = batch_loop es (turn e b) in
      elim e [
        | endorsed p discards ↦ rest
        | tick discards ↦ rest
        | cancels ↦ rest
        | returns ↦ if b.done then b else rest
      ]

module _ {P : Type 0} where
  -- The transactions of the batches, in the order of the batches.
  abbrev pub sent : List (ℕ × List P) → List P
  sent [] = []
  sent ((id, txs) ∷ batches) = txs ++ sent batches

  -- What the endorsers hand over before the loop returns, where the flag says that the context is done.
  abbrev pub received : Bool → List (Event P) → List P
  received done [] = []
  received done (endorsed p discards ∷ es) = p ∷ received done es
  received done (tick discards ∷ es) = received done es
  received done (cancels ∷ es) = received true es
  received done (returns ∷ es) = let rest = received done es in if done then [] else rest

  -- Batches that were formed, each with whether it was sent: all of them, and those that were sent.
  abbrev pub batches : List (Bool × ℕ × List P) → List (ℕ × List P)
  batches [] = []
  batches ((s, id, txs) ∷ formed) = (id, txs) ∷ batches formed

  abbrev pub delivered : List (Bool × ℕ × List P) → List (ℕ × List P)
  delivered [] = []
  delivered ((s, id, txs) ∷ formed) =
      let rest = delivered formed in if s then (id, txs) ∷ rest else rest

  -- The numbers of the batches go up by one to that of the last.
  abbrev pub AreNumbered : ℕ → List (ℕ × List P) → ℕ → Type 0
  AreNumbered n [] last = n ≡ last
  AreNumbered n ((id, txs) ∷ batches) last =
      (id ≡ n + 1) × (1 ≤ length txs) × AreNumbered id batches last

  batches-append :
      (fs : List (Bool × ℕ × List P)) (s : Bool) (n : ℕ) (txs : List P)
      → batches (fs ++ (s, n, txs) ∷ []) ≡ batches fs ++ (n, txs) ∷ []
  batches-append [] s n txs = refl
  batches-append ((s', n', txs') ∷ fs) s n txs = ap (◌∷◌ (n', txs')) (batches-append fs s n txs)

  delivered-append :
      (fs : List (Bool × ℕ × List P)) (s : Bool) (n : ℕ) (txs : List P)
      → delivered (fs ++ (s, n, txs) ∷ [])
        ≡ (if s then delivered fs ++ (n, txs) ∷ [] else delivered fs)
  delivered-append [] s n txs = ground arith
  delivered-append ((s', n', txs') ∷ fs) s n txs = ground (arith, delivered-append fs s n txs)

  sent-append :
      (bs : List (ℕ × List P)) (n : ℕ) (txs : List P) → sent (bs ++ (n, txs) ∷ []) ≡ sent bs ++ txs
  sent-append [] n txs = append-nil txs
  sent-append ((id, ps) ∷ bs) n txs =
      ap (◌++◌ ps) (sent-append bs n txs) ∙ sym (append_assoc ps (sent bs) txs)

  AreNumbered-append :
      (n : ℕ) (bs : List (ℕ × List P)) (last : ℕ) (txs : List P)
      → AreNumbered n bs last
      → 1 ≤ length txs
      → AreNumbered n (bs ++ (last + 1, txs) ∷ []) (last + 1)
  AreNumbered-append n [] last txs h l = (omega arith, l, refl)
  AreNumbered-append n ((id, ps) ∷ bs) last txs (a, b, c) l =
      (a, b, AreNumbered-append id bs last txs c l)

  -- What the loop keeps: the batches that it formed and what waits are all transactions in order; the batches
  -- are numbered without a gap and not empty; the channel took the delivered ones, which are all of them
  -- unless the context is done; fewer wait than the threshold.
  pub record IsBatching (all : List P) (b : Batcher P) : Type 0 where
    pub formed : List (Bool × ℕ × List P)
    pub in_order : sent (batches formed) ++ b.pending ≡ all
    pub numbered : AreNumbered 0 (batches formed) b.batch_id
    pub queued : b.incoming ≡ delivered formed
    pub unless_done : b.done ≡ false → delivered formed ≡ batches formed
    pub bounded : length b.pending < b.batch_threshold

  flush-IsBatching :
      (all waiting : List P) (discards : Bool) (b : Batcher P) (fs : List (Bool × ℕ × List P))
      → sent (batches fs) ++ waiting ≡ all
      → AreNumbered 0 (batches fs) b.batch_id
      → b.incoming ≡ delivered fs
      → (b.done ≡ false → delivered fs ≡ batches fs)
      → 1 ≤ b.batch_threshold
      → IsBatching all (flush discards (record b { pending = waiting }))
  unfolding flush
  flush-IsBatching all [] discards b fs e n q u t = record {
    formed = fs;
    in_order = e;
    numbered = n;
    queued = q;
    unless_done = u;
    bounded = omega (arith, t);
  }
  flush-IsBatching all (p ∷ ps) discards b fs e n q u t =
      let id = b.batch_id + 1 in
      let s = not (b.done && discards) in
      let formed_ = batches-append fs s id (p ∷ ps) in
      let taken = delivered-append fs s id (p ∷ ps) in
      record {
        formed = fs ++ (s, id, p ∷ ps) ∷ [];
        in_order =
            append-nil (sent (batches (fs ++ (s, id, p ∷ ps) ∷ [])))
            ∙ ap sent formed_
            ∙ sent-append (batches fs) id (p ∷ ps)
            ∙ e;
        numbered =
            subst (λ bs. AreNumbered 0 bs id) (sym formed_)
              (AreNumbered-append 0 (batches fs) b.batch_id (p ∷ ps) n (omega arith));
        queued = ground (arith, q, taken);
        unless_done = λ running. ground (arith, formed_, taken, u running, running);
        bounded = omega (arith, t);
      }

  turn-IsBatching :
      (all : List P) (e : Event P) (b : Batcher P)
      → IsBatching all b
      → IsBatching (all ++ received b.done (e ∷ [])) (turn e b)
  unfolding turn
  turn-IsBatching all (tick discards) b h =
      flush-IsBatching (all ++ []) b.pending discards b h.formed (h.in_order ∙ sym (append-nil all))
        h.numbered h.queued h.unless_done (omega (arith, h.bounded))
  turn-IsBatching all cancels b h = record {
    formed = h.formed;
    in_order = h.in_order ∙ sym (append-nil all);
    numbered = h.numbered;
    queued = h.queued;
    unless_done = λ running. absurd (ground (arith, running));
    bounded = h.bounded;
  }
  turn-IsBatching all returns b h =
      let nothing : all ≡ all ++ (if b.done then [] else []) =
        sym (append-nil all) ∙ ground arith in
      subst (λ l. IsBatching l b) nothing h
  turn-IsBatching all (endorsed p discards) b h =
      let waiting = b.pending ++ p ∷ [] in
      let order : sent (batches h.formed) ++ waiting ≡ all ++ p ∷ [] =
        sym (append_assoc (sent (batches h.formed)) b.pending (p ∷ []))
        ∙ ap (λ x. x ++ p ∷ []) h.in_order in
      elim (Bool-cases (leb b.batch_threshold (length waiting))) [
        | inl full ↦ rw full (
            flush-IsBatching (all ++ p ∷ []) waiting discards b h.formed order h.numbered h.queued
              h.unless_done (omega (arith, h.bounded)))
        | inr room ↦ rw room (record {
          formed = h.formed;
          in_order = order;
          numbered = h.numbered;
          queued = h.queued;
          unless_done = h.unless_done;
          bounded = ground arith;
        })
      ]

  turn-done :
      (e : Event P) (b : Batcher P)
      → (turn e b).done ≡ (elim e [
        | endorsed p discards ↦ b.done
        | tick discards ↦ b.done
        | cancels ↦ true
        | returns ↦ b.done
      ])
  unfolding turn flush
  turn-done (endorsed p discards) b = ground arith
  turn-done (tick discards) b = ground arith
  turn-done cancels b = refl
  turn-done returns b = refl

  batch_loop-IsBatching :
      (all : List P) (es : List (Event P)) (b : Batcher P)
      → IsBatching all b
      → IsBatching (all ++ received b.done es) (batch_loop es b)
  unfolding batch_loop
  batch_loop-IsBatching all [] b h = subst (λ l. IsBatching l b) (sym (append-nil all)) h
  batch_loop-IsBatching all (endorsed p discards ∷ es) b h =
      let rest =
        batch_loop-IsBatching (all ++ p ∷ []) es (turn (endorsed p discards) b)
          (turn-IsBatching all (endorsed p discards) b h) in
      subst (λ l. IsBatching l (batch_loop (endorsed p discards ∷ es) b))
        (ap (λ d. (all ++ p ∷ []) ++ received d es) (turn-done (endorsed p discards) b)
          ∙ append_assoc all (p ∷ []) (received b.done es))
        rest
  batch_loop-IsBatching all (tick discards ∷ es) b h =
      let rest =
        batch_loop-IsBatching (all ++ []) es (turn (tick discards) b)
          (turn-IsBatching all (tick discards) b h) in
      subst (λ l. IsBatching l (batch_loop (tick discards ∷ es) b))
        (ap (λ d. (all ++ []) ++ received d es) (turn-done (tick discards) b)
          ∙ append_assoc all [] (received b.done es))
        rest
  batch_loop-IsBatching all (cancels ∷ es) b h =
      let rest =
        batch_loop-IsBatching (all ++ []) es (turn cancels b) (turn-IsBatching all cancels b h) in
      subst (λ l. IsBatching l (batch_loop (cancels ∷ es) b))
        (append_assoc all [] (received true es)) rest
  batch_loop-IsBatching all (returns ∷ es) b h =
      ended b.done (received b.done es) (batch_loop es b)
        (subst (λ l. IsBatching l b) (sym (append-nil all)) h) (batch_loop-IsBatching all es b h)
    where
      ended :
          (over : Bool) (rest : List P) (c : Batcher P)
          → IsBatching (all ++ []) b
          → IsBatching (all ++ rest) c
          → IsBatching (all ++ (if over then [] else rest)) (if over then b else c)
      ended true rest c now later = now
      ended false rest c now later = later

  -- From its start the loop forms batches, numbered 1, 2, ... and none empty, that with what waits are all
  -- transactions that it received before it returned, in order. The manager gets those that are not
  -- discarded, in order and under their numbers, which are all of them as long as the context is not done.
  -- Fewer transactions wait than the threshold, which is at least 1.
  pub batch_loop-in_order :
      (threshold : ℕ) (es : List (Event P))
      → 1 ≤ threshold
      → IsBatching (received false es) (
          batch_loop es (record {
            batch_threshold = threshold;
            batch_id = 0;
            pending = [];
            incoming = [];
            done = false;
          }))
  batch_loop-in_order threshold es t =
      batch_loop-IsBatching [] es
        (record {
          batch_threshold = threshold;
          batch_id = 0;
          pending = [];
          incoming = [];
          done = false;
        })
        (record {
          formed = [];
          in_order = refl;
          numbered = refl;
          queued = refl;
          unless_done = λ running. refl;
          bounded = t;
        })
