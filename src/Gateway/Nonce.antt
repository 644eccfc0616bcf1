-- ===== src/Gateway/Nonce.antt =====
-- gateway/core/nonce_parking.go: the gate that holds back a sender's transactions until their nonce is next.
-- Each method runs under the mutex, but `Admit`, which gives it up to read a nonce from the store: it is
-- two steps then, with those of others between them. A sender's entry is pinned by its count of holders
-- over the read, so that the pointer that `Admit` holds is still the map's entry, which the model looks up
-- again. Times are counted from the start of the process.
pub mod Filing
pub mod Adding
pub mod Admission
pub mod Advancing
pub mod Pruning
pub mod Expiry
pub mod Reaping
pub mod Releasing
pub mod Effect
use fabric_x_evm_lfx.Prelude.{
  ℕ, zero, suc, ◌+◌, ◌-◌, ◌*◌, ◌%◌, ◌^◌, Bool, true, false, not, ◌&&◌, ◌||◌, Option, none, some,
  List, [], ◌∷◌, Map, has, lookup, insert, erase, Outcome, ok, err, length, ltb, leb, ◌==◌,
  if◌then◌else◌, nat_eq, Bytes, bytes_eq,
}
use fabric_x_evm_lfx.Gateway.Data.{Transaction, QueueError}

-- `expectedNonce`
pub record ExpectedNonce : Type 0 where
  pub nonce : ℕ
  pub known : Bool

-- `value`, whose second result is that a nonce is known.
unfoldable pub value : ExpectedNonce → Option ℕ
value e = if e.known then some e.nonce else none

unfoldable pub raise : ℕ → ExpectedNonce → ExpectedNonce
raise n e = if not e.known || ltb e.nonce n then record { nonce = n; known = true } else e

pub record ParkedTx (T : Type 0) : Type 0 where
  pub tx : T
  pub parked_at : ℕ

pub record SenderState (T : Type 0) : Type 0 where
  pub next : ExpectedNonce
  pub parked : Map ℕ (ParkedTx T)
  pub last_seen : ℕ
  pub refs : ℕ

-- `nonceGate`, with the queue that it hands transactions to.
pub record NonceGate (T Q : Type 0) : Type 0 where
  pub senders : Map Bytes (SenderState T)
  pub by_hash : Map Bytes T
  pub max_per_sender : ℕ
  pub max_senders : ℕ
  pub ttl : ℕ
  pub queue : Q

-- What go-ethereum gives for a transaction: its hash, its nonce, `types.Sender`, `UnmarshalBinary`.
pub record TxOps (T : Type 0) : Type 0 where
  pub hash : T → Bytes
  pub nonce : T → ℕ
  pub sender : T → Option Bytes
  pub unmarshal : Bytes → Option T

pub data AdmitError : Type 0 where
  unknown_sender : AdmitError
  nonce_unavailable : AdmitError
  nonce_too_low : ℕ → ℕ → AdmitError
  too_many_parked : AdmitError
  not_queued : QueueError → AdmitError

module _ {T Q : Type 0} where
  abbrev pub set_senders : Map Bytes (SenderState T) → NonceGate T Q → NonceGate T Q
  set_senders senders g = record g { senders = senders }

  -- `newNonceGate`, for a queue.
  unfoldable pub new_nonce_gate : Q → NonceGate T Q
  new_nonce_gate queue = record {
    senders = [];
    by_hash = [];
    max_per_sender = 64;
    max_senders = 2 ^ 20;
    ttl = 3 * 60 * 10 ^ 9;
    queue = queue;
  }

module _ {T : Type 0} where
  -- The entry of a sender, or the one that `acquire` reserves.
  unfoldable pub entry_of : Bytes → Map Bytes (SenderState T) → SenderState T
  entry_of a senders = elim (lookup a senders) [
    | some ss ↦ ss
    | none ↦ record {
      next = record { nonce = 0; known = false };
      parked = [];
      last_seen = 0;
      refs = 0;
    }
  ]

  -- `acquire`
  unfoldable pub acquire : Bytes → Map Bytes (SenderState T) → Map Bytes (SenderState T)
  unfolding entry_of
  acquire a senders =
      let ss = entry_of a senders in insert a (record ss { refs = ss.refs + 1 }) senders

  -- `release`
  unfoldable pub release : Bytes → Map Bytes (SenderState T) → Map Bytes (SenderState T)
  unfolding entry_of
  release a senders =
      let ss = entry_of a senders in
      if ltb 0 (ss.refs - 1) || ss.next.known || ltb 0 (length ss.parked)
      then insert a (record ss { refs = ss.refs - 1 }) senders
      else erase a senders

  -- What no caller holds and holds no transaction may be evicted.
  abbrev pub is_held : SenderState T → Bool
  is_held ss = ltb 0 ss.refs || ltb 0 (length ss.parked)

  -- One round of the scan: a sender that may be evicted and was seen before the oldest so far takes its place.
  unfoldable pub older : Bytes → SenderState T → Option (Bytes × ℕ) → Option (Bytes × ℕ)
  older a ss oldest = if is_held ss then oldest else elim oldest [
    | none ↦ some (a, ss.last_seen)
    | some (b, seen) ↦ if ltb ss.last_seen seen then some (a, ss.last_seen) else some (b, seen)
  ]

  -- The scan for the least recently seen sender.
  unfoldable pub find_oldest : Map Bytes (SenderState T) → Option (Bytes × ℕ) → Option (Bytes × ℕ)
  unfolding older
  find_oldest [] oldest = oldest
  find_oldest ((a, ss) ∷ senders) oldest = find_oldest senders (older a ss oldest)

  -- The eviction loop of `prune`; each round drops a sender, so the number of senders is fuel enough.
  unfoldable pub evict : ℕ → ℕ → Map Bytes (SenderState T) → Map Bytes (SenderState T)
  unfolding find_oldest
  evict zero max senders = senders
  evict (suc fuel) max senders = elim (ltb max (length senders)) [
    | false ↦ senders
    | true ↦ elim (find_oldest senders none) [
      | none ↦ senders
      | some (a, seen) ↦ evict fuel max (erase a senders)
    ]
  ]

module _ {T Q : Type 0} where
  -- `ss.next.raise`
  unfoldable pub raise_next : Bytes → ℕ → NonceGate T Q → NonceGate T Q
  unfolding entry_of raise
  raise_next a n g =
      let ss = entry_of a g.senders in
      set_senders (insert a (record ss { next = raise n ss.next }) g.senders) g

  -- `ss.lastSeen = now`
  unfoldable pub see : Bytes → ℕ → NonceGate T Q → NonceGate T Q
  unfolding entry_of
  see a now g =
      set_senders (insert a (record (entry_of a g.senders) { last_seen = now }) g.senders) g

module _ {T Q : Type 0} where
  -- The deferred release of `Admit`.
  abbrev pub released : {A : Type 0} → Bytes → A × NonceGate T Q → A × NonceGate T Q
  released a (r, g) = (r, set_senders (release a g.senders) g)

module _ {T : Type 0} (ops : TxOps T) where
  -- The parked transactions of one sender that have not expired, and the index without the others.
  unfoldable pub expire_parked :
      ℕ → ℕ → Map ℕ (ParkedTx T) → Map Bytes T → Map ℕ (ParkedTx T) × Map Bytes T
  expire_parked now ttl [] by_hash = ([], by_hash)
  expire_parked now ttl ((n, p) ∷ parked) by_hash =
      let old = ltb ttl (now - p.parked_at) in
      let (rest, by_hash') =
        expire_parked now ttl parked (if old then erase (ops.hash p.tx) by_hash else by_hash) in
      (if old then rest else (n, p) ∷ rest, by_hash')

  -- The first loop of `prune`.
  unfoldable pub expire_all :
      ℕ → ℕ → Map Bytes (SenderState T) → Map Bytes T → Map Bytes (SenderState T) × Map Bytes T
  unfolding expire_parked
  expire_all now ttl [] by_hash = ([], by_hash)
  expire_all now ttl ((a, ss) ∷ senders) by_hash =
      let (parked, by_hash₁) = expire_parked now ttl ss.parked by_hash in
      let (rest, by_hash₂) = expire_all now ttl senders by_hash₁ in
      ((a, record ss { parked = parked }) ∷ rest, by_hash₂)

module _ {T Q : Type 0} (ops : TxOps T) where
  -- `prune` of the gate and of its cache.
  unfoldable pub prune : ℕ → NonceGate T Q → NonceGate T Q
  unfolding expire_all evict
  prune now g =
      let (senders, by_hash) = expire_all ops now g.ttl g.senders g.by_hash in
      record g { senders = evict (length senders) g.max_senders senders; by_hash = by_hash }

  -- `park`
  unfoldable pub park : Bytes → T → ℕ → NonceGate T Q → NonceGate T Q
  unfolding entry_of
  park a tx now g =
      let ss = entry_of a g.senders in
      let by_hash : Map Bytes T = elim (lookup (ops.nonce tx) ss.parked) [
        | none ↦ g.by_hash
        | some old ↦ erase (ops.hash old.tx) g.by_hash
      ] in
      let parked = insert (ops.nonce tx) (record { tx = tx; parked_at = now }) ss.parked in
      record g {
        senders = insert a (record ss { parked = parked }) g.senders;
        by_hash = insert (ops.hash tx) tx by_hash;
      }

  -- `unpark`: the gate after it.
  unfoldable pub unpark : Bytes → ℕ → NonceGate T Q → NonceGate T Q
  unfolding entry_of
  unpark a n g =
      let ss = entry_of a g.senders in
      elim (lookup n ss.parked) [
        | none ↦ g
        | some p ↦ record g {
          senders = insert a (record ss { parked = erase n ss.parked }) g.senders;
          by_hash = erase (ops.hash p.tx) g.by_hash;
        }
      ]

  -- `unpark`: the transaction that it returns.
  unfoldable pub parked_at_nonce : Bytes → ℕ → NonceGate T Q → Option T
  unfolding entry_of
  parked_at_nonce a n g = elim (lookup n (entry_of a g.senders).parked) [
    | none ↦ none
    | some p ↦ some p.tx
  ]

  -- `IsPending`
  unfoldable pub is_pending : Bytes → NonceGate T Q → Option T
  is_pending h g = lookup h g.by_hash

  -- `enqueue` is the queue's method.
  module _ (enqueue : T → Q → Outcome QueueError Q) where
    -- The rest of `Admit` once the next nonce is known, before the deferred release.
    unfoldable pub place :
        Bytes → T → ℕ → NonceGate T Q → Outcome AdmitError (Unit {0}) × NonceGate T Q
    unfolding see park entry_of
    place a tx now g₀ =
        let g = see a now g₀ in
        let ss = entry_of a g.senders in
        if ltb (ops.nonce tx) ss.next.nonce
        then (err (nonce_too_low ss.next.nonce (ops.nonce tx)), g)
        else if ops.nonce tx == ss.next.nonce
        then elim (enqueue tx g.queue) [
          | ok queue ↦ (ok tt, record g { queue = queue })
          | err e ↦ (err (not_queued e), g)
        ]
        else if not (has (ops.nonce tx) ss.parked) && leb g.max_per_sender (length ss.parked)
        then (err too_many_parked, g)
        else (ok tt, park a tx now g)

    -- `Admit`. Where the sender has no known nonce yet, `away` is what others do to the gate during the
    -- read of the store, and `seed` the answer of the store.
    unfoldable pub admit :
        (NonceGate T Q → NonceGate T Q)
        → Option ℕ
        → T
        → ℕ
        → NonceGate T Q
        → Outcome AdmitError (Unit {0}) × NonceGate T Q
    unfolding acquire release raise_next place entry_of value
    admit away seed tx now g = elim (ops.sender tx) [
      | none ↦ (err unknown_sender, g)
      | some a ↦
          let g₁ = set_senders (acquire a g.senders) g in
          elim (value (entry_of a g₁.senders).next) [
            | some next ↦ released a (place a tx now g₁)
            | none ↦ elim seed [
              | none ↦ released a (err nonce_unavailable, away g₁)
              | some n ↦ released a (place a tx now (raise_next a n (away g₁)))
            ]
          ]
    ]

    -- The transactions below the next nonce are dropped; `nonces` is what the loop ranges over.
    unfoldable pub drop_spent : Bytes → ℕ → Map ℕ (ParkedTx T) → NonceGate T Q → NonceGate T Q
    unfolding unpark
    drop_spent a next [] g = g
    drop_spent a next ((n, p) ∷ nonces) g =
        drop_spent a next nonces (if ltb n next then unpark a n g else g)

    -- The transaction at the next nonce goes to the queue; one that the queue refuses is dropped.
    unfoldable pub promote : Bytes → ℕ → NonceGate T Q → NonceGate T Q
    unfolding unpark parked_at_nonce
    promote a next g =
        let g' = unpark a next g in
        elim (parked_at_nonce a next g) [
          | none ↦ g'
          | some tx ↦ elim (enqueue tx g'.queue) [
            | ok queue ↦ record g' { queue = queue }
            | err e ↦ g'
          ]
        ]

    -- One sender of `Observe`: `n` is the highest nonce that it committed.
    unfoldable pub advance : Bytes → ℕ → ℕ → NonceGate T Q → NonceGate T Q
    unfolding acquire release raise_next see drop_spent promote entry_of
    advance a n now g =
        let g₁ =
          see a now (raise_next a ((n + 1) % 2 ^ 64) (set_senders (acquire a g.senders) g)) in
        let ss = entry_of a g₁.senders in
        let g₂ = promote a ss.next.nonce (drop_spent a ss.next.nonce ss.parked g₁) in
        set_senders (release a g₂.senders) g₂

    unfoldable pub advance_all : Map Bytes ℕ → ℕ → NonceGate T Q → NonceGate T Q
    unfolding advance
    advance_all [] now g = g
    advance_all ((a, n) ∷ highest) now g = advance_all highest now (advance a n now g)

    -- `bytes_to_address` is `common.BytesToAddress`, `valid` the SDK's `Status.Valid`.
    module _ (bytes_to_address : Bytes → Bytes) (valid : ℕ → Bool) where
      -- The highest committed nonce of each sender.
      unfoldable pub highest_nonces : List Transaction → Map Bytes ℕ → Map Bytes ℕ
      highest_nonces [] highest = highest
      highest_nonces (c ∷ committed) highest = highest_nonces committed (
          if valid c.fabric_tx_status
          then elim (ops.unmarshal c.raw_tx) [
            | none ↦ highest
            | some tx ↦
                let a = bytes_to_address c.from_address in
                elim (lookup a highest) [
                  | none ↦ insert a (ops.nonce tx) highest
                  | some n ↦
                      if ltb n (ops.nonce tx) then insert a (ops.nonce tx) highest else highest
                ]
          ]
          else highest)

      -- `Observe`
      unfoldable pub observe : List Transaction → ℕ → NonceGate T Q → NonceGate T Q
      unfolding highest_nonces advance_all
      observe committed now g = advance_all (highest_nonces committed []) now g
