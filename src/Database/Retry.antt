-- ===== src/Database/Retry.antt =====
-- internal/database/retry.go: work that is replayed when the database reports a lost race.
mod Tests
use dwh_v.Common.{
  ℕ, zero, suc, ◌+◌, ◌-◌, ◌≤◌, ◌≡◌, refl, Bool, true, false, ◌&&◌, ◌||◌, not, Option, none, some,
  ◌==◌, if◌then◌else◌, ◌⊎◌, inl, inr, arith, if_rule, option_rule, subst, Bool-cases, ==_iff, ap,
  ◌∙◌,
}

-- What the database and the context do to the world `W`, with the errors `E`: an error's MySQL
-- number, if it has one, the error of a context that ended, and the wait between two attempts.
pub record Database (W E : Type 0) : Type 0 where
  pub mysql_number : E → Option ℕ
  pub context_error : W → Option E
  pub begin : W → Option E × W
  pub commit : W → Option E × W
  pub rollback : W → W
  pub wait : ℕ → W → Option E × W

pub data Outcome (E : Type 0) : Type 0 where
  returned : ℕ → Option E → Outcome E
  panicked : Outcome E

abbrev pub max_attempts : ℕ
max_attempts = 3

module _ {W E : Type 0} (d : Database W E) where
  -- `IsRetryableConcurrencyError`
  unfoldable pub is_retryable : E → Bool
  is_retryable e = elim (d.mysql_number e) [ none ↦ false | some n ↦ n == 1205 || n == 1213 ]

  abbrev pub commit_or_rollback : Option E × W → Option E × W
  commit_or_rollback (some e, w) = (some e, d.rollback w)
  commit_or_rollback (none, w) =
      let (e, w') = d.commit w in elim e [ none ↦ (none, w') | some x ↦ (some x, d.rollback w') ]

  abbrev pub work_or_error : (W → Option E × W) → Option E × W → Option E × W
  work_or_error work (some e, w) = (some e, w)
  work_or_error work (none, w) = commit_or_rollback (work w)

  -- One attempt at the work.
  unfoldable pub transaction : (W → Option E × W) → W → Option E × W
  transaction work w = work_or_error work (d.begin w)

  abbrev pub is_last : Option E → ℕ → Bool
  is_last none attempt = true
  is_last (some e) attempt = not (is_retryable e) || attempt == max_attempts

  -- The loop, at the attempt with this number.
  unfoldable pub retry_loop : (W → Option E × W) → ℕ → ℕ → W → Outcome E × W
  retry_loop once zero attempt w = (panicked, w)
  retry_loop once (suc fuel) attempt w = elim (d.context_error w) [
    | some e ↦ (returned (attempt - 1) (some e), w)
    | none ↦
        let r = (once w).0 in
        let w' = (once w).1 in
        let stopped = (d.wait attempt w').0 in
        let rest = retry_loop once fuel (suc attempt) (d.wait attempt w').1 in
        if is_last r attempt then (returned attempt r, w') else elim stopped [
          | some e ↦ (returned attempt (some e), (d.wait attempt w').1)
          | none ↦ rest
        ]
  ]

  unfoldable pub retry_tx : (W → Option E × W) → W → Outcome E × W
  retry_tx work w = retry_loop (transaction work) max_attempts 1 w

  unfoldable pub retry_conn_tx : (W → Option E × W) → W → Outcome E × W
  retry_conn_tx work w = retry_loop (transaction work) max_attempts 1 w

  -- A statement of its own in place of a transaction.
  unfoldable pub retry_exec : (W → Option E × W) → W → Outcome E × W
  retry_exec exec w = retry_loop exec max_attempts 1 w

  -- A transaction around the work, as a relation between the worlds before and after: it cannot begin, or the work is
  -- done once and fails, or the commit succeeds or fails; what fails behind the beginning is rolled back.
  pub data Transacted (work : W → Option E × W) (w : W) : Option E → W → Type 0 where
    not_begun : {e : E} → (d.begin w).0 ≡ some e → Transacted work w (some e) (d.begin w).1
    work_failed :
        {e : E}
        → (d.begin w).0 ≡ none
        → (work (d.begin w).1).0 ≡ some e
        → Transacted work w (some e) (d.rollback (work (d.begin w).1).1)
    committed :
        (d.begin w).0 ≡ none
        → (work (d.begin w).1).0 ≡ none
        → (d.commit (work (d.begin w).1).1).0 ≡ none
        → Transacted work w none (d.commit (work (d.begin w).1).1).1
    not_committed :
        {e : E}
        → (d.begin w).0 ≡ none
        → (work (d.begin w).1).0 ≡ none
        → (d.commit (work (d.begin w).1).1).0 ≡ some e
        → Transacted work w (some e) (d.rollback (d.commit (work (d.begin w).1).1).1)

  -- A statement, which is its own transaction.
  pub data Executed (exec : W → Option E × W) (w : W) : Option E → W → Type 0 where
    executed : Executed exec w (exec w).0 (exec w).1

  -- The errors that say that a race was lost.
  abbrev pub LostRace : E → Type 0
  LostRace e = (d.mysql_number e ≡ some 1205) ⊎ (d.mysql_number e ≡ some 1213)

  -- From `w`, the attempt `n` is reached in the world `u`: before it there were exactly `n - 1` attempts, one after
  -- the other, each of which lost a race and was followed by a wait, and the context had not ended.
  pub data Reaches (Try : W → Option E → W → Type 0) (w : W) : ℕ → W → Type 0 where
    at_first : Reaches Try w 1 w
    once_more :
        {n : ℕ} {u u' : W} {e : E}
        → Reaches Try w n u
        → d.context_error u ≡ none
        → Try u (some e) u'
        → LostRace e
        → (d.wait n u').0 ≡ none
        → Reaches Try w (suc n) (d.wait n u').1

  -- What the functions promise of their result, by the attempts that were made.
  pub data Promised (Try : W → Option E → W → Type 0) (w : W) : Outcome E × W → Type 0 where
    succeeded :
        {n : ℕ} {u u' : W}
        → n ≤ max_attempts
        → Reaches Try w n u
        → d.context_error u ≡ none
        → Try u none u'
        → Promised Try w (returned n none, u')
    failed :
        {n : ℕ} {u u' : W} {e : E}
        → n ≤ max_attempts
        → Reaches Try w n u
        → d.context_error u ≡ none
        → Try u (some e) u'
        → (¬ LostRace e) ⊎ (n ≡ max_attempts)
        → Promised Try w (returned n (some e), u')
    ended_before :
        {n : ℕ} {u : W} {e : E}
        → suc n ≤ max_attempts
        → Reaches Try w (suc n) u
        → d.context_error u ≡ some e
        → Promised Try w (returned n (some e), u)
    ended_in_wait :
        {n : ℕ} {u u' : W} {e z : E}
        → suc n ≤ max_attempts
        → Reaches Try w n u
        → d.context_error u ≡ none
        → Try u (some z) u'
        → LostRace z
        → (d.wait n u').0 ≡ some e
        → Promised Try w (returned n (some e), (d.wait n u').1)

  transaction-Transacted :
      (work : W → Option E × W) (w : W)
      → Transacted work w (transaction work w).0 (transaction work w).1
  unfolding transaction
  transaction-Transacted work w = begun (d.begin w) refl
    where
      P : Option E × W → Type 0
      P r = Transacted work w r.0 r.1

      ended :
          (p : Option E × W)
          → d.commit (work (d.begin w).1).1 ≡ p
          → (d.begin w).0 ≡ none
          → (work (d.begin w).1).0 ≡ none
          → P (elim p.0 [ none ↦ (none, p.1) | some x ↦ (some x, d.rollback p.1) ])
      ended (none, v) e b k =
          subst (Transacted work w none) (ap (λ q. q.1) e) (committed b k (ap (λ q. q.0) e))
      ended (some x, v) e b k =
          subst (λ z. Transacted work w (some x) (d.rollback z)) (ap (λ q. q.1) e)
            (not_committed b k (ap (λ q. q.0) e))

      worked :
          (p : Option E × W)
          → work (d.begin w).1 ≡ p
          → (d.begin w).0 ≡ none
          → P (commit_or_rollback p)
      worked (some x, v) e b =
          subst (λ z. Transacted work w (some x) (d.rollback z)) (ap (λ q. q.1) e)
            (work_failed b (ap (λ q. q.0) e))
      worked (none, v) e b =
          subst (λ z. P (commit_or_rollback (none, z))) (ap (λ q. q.1) e)
            (ended (d.commit (work (d.begin w).1).1) refl b (ap (λ q. q.0) e))

      begun : (p : Option E × W) → d.begin w ≡ p → P (work_or_error work p)
      begun (some x, v) e =
          subst (Transacted work w (some x)) (ap (λ q. q.1) e) (not_begun (ap (λ q. q.0) e))
      begun (none, v) e =
          subst (λ z. P (work_or_error work (none, z))) (ap (λ q. q.1) e)
            (worked (work (d.begin w).1) refl (ap (λ q. q.0) e))

  retryable-LostRace : (e : E) → is_retryable e ≡ true → LostRace e
  unfolding is_retryable
  retryable-LostRace e h = go (d.mysql_number e) refl
    where
      go : (o : Option ℕ) → d.mysql_number e ≡ o → LostRace e
      go none q = absurd (ground (arith, h, q))
      go (some n) q = elim (Bool-cases (n == 1205)) [
        | inl hit ↦ inl (q ∙ ap some ((==_iff n 1205).0 hit))
        | inr miss ↦
            let other : n == 1213 ≡ true = ground (arith, h, q, miss) in
            inr (q ∙ ap some ((==_iff n 1213).0 other))
      ]

  final-LostRace : (e : E) → is_retryable e ≡ false → ¬ LostRace e
  unfolding is_retryable
  final-LostRace e h (inl q) = ground (arith, h, q)
  final-LostRace e h (inr q) = ground (arith, h, q)

  not_last :
      (e : E) (attempt : ℕ)
      → is_last (some e) attempt ≡ false
      → attempt ≤ max_attempts
      → (suc attempt ≤ max_attempts) × LostRace e
  not_last e attempt h high =
      let again : is_retryable e ≡ true = ground (arith, h) in
      (ground (arith, h, high), retryable-LostRace e again)

  -- The loop, from an attempt that was reached.
  module _ (Try : W → Option E → W → Type 0) (once : W → Option E × W)
      (tried : (u : W) → Try u (once u).0 (once u).1) (w : W) where
    answered :
        (u : W) (attempt : ℕ) (r : Option E)
        → Try u r (once u).1
        → d.context_error u ≡ none
        → Reaches Try w attempt u
        → attempt ≤ max_attempts
        → is_last r attempt ≡ true
        → Promised Try w (returned attempt r, (once u).1)
    answered u attempt none t c r high last = succeeded high r c t
    answered u attempt (some x) t c r high last =
        failed high r c t (elim (Bool-cases (is_retryable x)) [
          | inl again ↦ inr (ground arith)
          | inr final ↦ inl (final-LostRace x final)
        ])

    retry_loop-Promised :
        (fuel attempt : ℕ) (u : W)
        → Reaches Try w attempt u
        → 1 ≤ attempt
        → attempt + fuel ≡ suc max_attempts
        → attempt ≤ max_attempts
        → Promised Try w (retry_loop once fuel attempt u)
    unfolding retry_loop
    retry_loop-Promised zero attempt u reached low sum high = absurd (omega arith)
    retry_loop-Promised (suc fuel) attempt u reached low sum high =
        option_rule P (d.context_error u)
          (λ c.
            if_rule P (is_last (once u).0 attempt)
              (λ last. answered u attempt (once u).0 (tried u) c reached high last)
              (λ more. again c (once u).0 (tried u) more (λ v q.
                retry_loop-Promised fuel (suc attempt) v q (omega arith) (omega (arith, sum)))))
          (λ e q.
            subst (λ k. P (returned k (some e), u)) (omega (arith, low))
              (ended_before {n = attempt - 1} (omega (arith, low, high))
                (subst (λ k. Reaches Try w k u) (omega (arith, low)) reached) q))
      where
        P : Outcome E × W → Type 0
        P = Promised Try w

        again :
            d.context_error u ≡ none
            → (r : Option E) → Try u r (once u).1
            → is_last r attempt ≡ false
            → ((v : W)
                → Reaches Try w (suc attempt) v
                → suc attempt ≤ max_attempts
                → P (retry_loop once fuel (suc attempt) v))
            → P (elim (d.wait attempt (once u).1).0 [
              | some e ↦ (returned attempt (some e), (d.wait attempt (once u).1).1)
              | none ↦ retry_loop once fuel (suc attempt) (d.wait attempt (once u).1).1
            ])
        again c none t more rest = cc more
        again c (some z) t more rest =
            let next = not_last z attempt more high in
            option_rule P (d.wait attempt (once u).1).0
              (λ q. rest (d.wait attempt (once u).1).1 (once_more reached c t next.1 q) next.0)
              (λ e q. ended_in_wait next.0 reached c t next.1 q)

  -- Whatever the database and the context do, the two functions for transactions and the one for a statement answer,
  -- and none ends in the panic behind its loop. The number that they return is how many attempts were made, at most
  -- three, one after the other: each but the last lost a race (the errors 1205 and 1213) and was followed by a wait.
  -- Each attempt at a transaction begins one, does the work once, and commits it, or rolls it back where the work or
  -- the commit failed. Without an error, the last attempt was committed, and nothing was done after it. An error is that of
  -- the last attempt, and then no race was lost or three attempts were made, or it is that of a context that ended.
  pub retries_keep_promise :
      (work exec : W → Option E × W) (w : W)
      → Promised (Transacted work) w (retry_tx work w)
        × Promised (Transacted work) w (retry_conn_tx work w)
        × Promised (Executed exec) w (retry_exec exec w)
  unfolding retry_tx retry_conn_tx retry_exec
  retries_keep_promise work exec w =
      let tx =
        retry_loop-Promised (Transacted work) (transaction work) (transaction-Transacted work) w 3 1
          w at_first (omega arith) (omega arith) (omega arith) in
      (
        tx,
        tx,
        retry_loop-Promised (Executed exec) exec (λ u. executed) w 3 1 w at_first (omega arith)
            (omega arith) (omega arith),
      )
