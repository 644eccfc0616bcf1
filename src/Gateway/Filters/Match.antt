-- ===== src/Gateway/Filters/Match.antt =====
-- gateway/api/filters/match.go: which logs a filter keeps.
use fabric_x_evm_lfx.Prelude.{
  ℕ, zero, suc, ◌%◌, ◌^◌, ◌≤◌, ◌≡◌, refl, sym, subst, ◌≢◌, ◌↔◌, ◌⊎◌, inl, inr, true, Option, none,
  some, List, [], ◌∷◌, arith, length, get_elem?, Bool-cases, nat_eq, Bytes, bytes_eq,
}
use fabric_x_evm_lfx.Gateway.Filters.{
  ℤ, pos, negsuc, FilterCriteria, ChainLog, contains_bytes, check_topics, check_from, check_to,
  check_address, check_log, filter_logs, match_logs,
}

abbrev pub IsIn : ChainLog → List ChainLog → Type 0
IsIn x [] = ⊥
IsIn x (y ∷ ys) = (y ≡ x) ⊎ IsIn x ys

-- Each position that lists alternatives has a topic among them.
abbrev pub TopicsMatch : List (List Bytes) → List Bytes → Type 0
TopicsMatch topics ts =
    (i : ℕ) (sub : List Bytes)
    → get_elem? topics i ≡ some sub
    → sub ≢ []
    → (t : Bytes) × (get_elem? ts i ≡ some t) × (contains_bytes sub t ≡ true)

-- The meaning of the criteria for one log.
pub record Matches (crit : FilterCriteria) (log : ChainLog) : Type 0 where
  pub not_before : (n : ℕ) → crit.from_block ≡ some (pos n) → n % 2 ^ 64 ≤ log.block_number
  pub not_after : (n : ℕ) → crit.to_block ≡ some (pos n) → log.block_number ≤ n % 2 ^ 64
  pub from_address : crit.addresses ≢ [] → contains_bytes crit.addresses log.address ≡ true
  pub enough_topics : length crit.topics ≤ length log.topics
  pub topics_match : TopicsMatch crit.topics log.topics

check_topics_sound :
    (topics : List (List Bytes)) (ts : List Bytes)
    → check_topics topics ts ≡ true
    → TopicsMatch topics ts
unfolding check_topics
check_topics_sound [] ts h i sub e ne = absurd (ground arith)
check_topics_sound (sub ∷ topics) [] h i s e ne = absurd (ground arith)
check_topics_sound ([] ∷ topics) (t ∷ ts) h zero s e ne = absurd (ne (ground arith))
check_topics_sound ([] ∷ topics) (t ∷ ts) h (suc i) s e ne = check_topics_sound topics ts h i s e ne
check_topics_sound ((a ∷ sub) ∷ topics) (t ∷ ts) h zero s e ne = (t, refl, ground arith)
check_topics_sound ((a ∷ sub) ∷ topics) (t ∷ ts) h (suc i) s e ne =
    check_topics_sound topics ts (ground arith) i s e ne

check_topics_complete :
    (topics : List (List Bytes)) (ts : List Bytes)
    → length topics ≤ length ts
    → TopicsMatch topics ts
    → check_topics topics ts ≡ true
unfolding check_topics
check_topics_complete [] ts l m = refl
check_topics_complete (sub ∷ topics) [] l m = absurd (omega arith)
check_topics_complete ([] ∷ topics) (t ∷ ts) l m =
    check_topics_complete topics ts (omega arith) (λ i s e ne. m (suc i) s e ne)
check_topics_complete ((a ∷ sub) ∷ topics) (t ∷ ts) l m =
    let rest = check_topics_complete topics ts (omega arith) (λ i s e ne. m (suc i) s e ne) in
    let (u, e, c) = m 0 (a ∷ sub) refl (λ e. ground arith) in
    let same : t ≡ u = ground arith in
    let hit : contains_bytes (a ∷ sub) t ≡ true =
      subst (λ x. contains_bytes (a ∷ sub) x ≡ true) (sym same) c in
    ground (arith, rest, hit)

check_from_iff :
    (bound : Option ℤ) (b : ℕ)
    → (check_from bound b ≡ true) ↔ ((n : ℕ) → bound ≡ some (pos n) → n % 2 ^ 64 ≤ b)
unfolding check_from
check_from_iff none b = ((λ h n e. absurd (ground arith)), λ h. refl)
check_from_iff (some (negsuc m)) b = ((λ h n e. absurd (ground arith)), λ h. refl)
check_from_iff (some (pos m)) b = (
  (λ h n e. let same : m ≡ n = ground arith in ground arith),
  λ h. let le = h m refl in ground arith,
)

check_to_iff :
    (bound : Option ℤ) (b : ℕ)
    → (check_to bound b ≡ true) ↔ ((n : ℕ) → bound ≡ some (pos n) → b ≤ n % 2 ^ 64)
unfolding check_to
check_to_iff none b = ((λ h n e. absurd (ground arith)), λ h. refl)
check_to_iff (some (negsuc m)) b = ((λ h n e. absurd (ground arith)), λ h. refl)
check_to_iff (some (pos m)) b = (
  (λ h n e. let same : m ≡ n = ground arith in ground arith),
  λ h. let le = h m refl in ground arith,
)

check_address_iff :
    (addresses : List Bytes) (a : Bytes)
    → (check_address addresses a ≡ true) ↔ (addresses ≢ [] → contains_bytes addresses a ≡ true)
unfolding check_address
check_address_iff [] a = ((λ h ne. absurd (ne refl)), λ h. refl)
check_address_iff (x ∷ xs) a = ((λ h ne. h), λ h. h (λ e. ground arith))

check_log_iff :
    (crit : FilterCriteria) (log : ChainLog)
    → (check_log crit.from_block crit.to_block crit.addresses crit.topics log ≡ true)
      ↔ Matches crit log
unfolding check_log
check_log_iff crit log = (
  (λ h. record {
    not_before = (check_from_iff crit.from_block log.block_number).0 (ground arith);
    not_after = (check_to_iff crit.to_block log.block_number).0 (ground arith);
    from_address = (check_address_iff crit.addresses log.address).0 (ground arith);
    enough_topics = ground arith;
    topics_match = check_topics_sound crit.topics log.topics (ground arith);
  }),
  λ m.
      let a = (check_from_iff crit.from_block log.block_number).1 m.not_before in
      let b = (check_to_iff crit.to_block log.block_number).1 m.not_after in
      let c = (check_address_iff crit.addresses log.address).1 m.from_address in
      let d = check_topics_complete crit.topics log.topics m.enough_topics m.topics_match in
      let e = m.enough_topics in ground arith,
)

-- A filter keeps exactly the given logs that match its criteria: the block number within the bounds that
-- are not negative, one of the addresses unless there are none, and for each position that lists
-- alternatives a topic among them.
pub match_logs_iff :
    (logs : List ChainLog) (crit : FilterCriteria) (log : ChainLog)
    → IsIn log (match_logs logs crit) ↔ (IsIn log logs × Matches crit log)
unfolding match_logs filter_logs
match_logs_iff [] crit log = ((λ h. absurd h), λ h. h.0)
match_logs_iff (l ∷ logs) crit log =
    let known = match_logs_iff logs crit log in
    elim (Bool-cases (check_log crit.from_block crit.to_block crit.addresses crit.topics l)) [
      | inl keep ↦ rw keep (
        (λ h. elim h [
          | inl same ↦ (inl same, subst (Matches crit) same ((check_log_iff crit l).0 keep))
          | inr later ↦ let (i, m) = known.0 later in (inr i, m)
        ]),
        λ h. elim h.0 [ inl same ↦ inl same | inr later ↦ inr (known.1 (later, h.1)) ],
      )
      | inr skip ↦ rw skip (
        (λ h. let (i, m) = known.0 h in (inr i, m)),
        λ h. elim h.0 [
          | inl same ↦
              let hit = (check_log_iff crit l).1 (subst (Matches crit) (sym same) h.1) in
              absurd (ground arith)
          | inr later ↦ known.1 (later, h.1)
        ],
      )
    ]
