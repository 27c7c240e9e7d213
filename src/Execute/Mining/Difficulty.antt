-- ===== src/Execute/Mining/Difficulty.antt =====
-- `update_difficulty`: when the difficulty moves, and by how much.
use joe_liquid_staking.Prelude.{
  ℕ, ◌+◌, ◌≤◌, ◌<◌, ◌≡◌, refl, sym, ◌∙◌, inl, inr, Bool, true, false, ◌&&◌, some, ok, arith,
  bind_ok, ok-injective, load, load-eq-ok, sub_word, sub_word-eq-ok, checked_sub, checked_add64,
  fit-eq-ok, u64_mod, overflow, ltb, Bool-cases,
}
use joe_liquid_staking.State.{State}
use joe_liquid_staking.Execute.Mining.{update_difficulty}

-- The difficulty after an update: lower by one after more than five minutes, unless it is one;
-- higher by one after less than twenty seconds, if a proof was submitted; else the same.
pub data Next (duration : ℕ) (proved : Bool) (d d' : ℕ) : Type 0 where
  lower : 300 < duration → 1 < d → d' + 1 ≡ d → Next duration proved d d'
  higher : duration < 20 → proved ≡ true → d' ≡ d + 1 → d' < u64_mod → Next duration proved d d'
  same :
      (300 < duration → d ≤ 1)
      → (duration < 20 → proved ≡ false)
      → d' ≡ d
      → Next duration proved d d'

-- The stored time and difficulty, and the difficulty that follows.
abbrev pub Updated : ℕ → Bool → State → State → Type 0
Updated time proved s t =
    (last : ℕ) × (d : ℕ) × (duration : ℕ) × (d' : ℕ) × (s.miner_last_mined_timestamp ≡ some last)
    × (s.miner_difficulty ≡ some d)
    × (last + duration ≡ time)
    × Next duration proved d d'
    × (t ≡ record s { miner_difficulty = some d' })

pub update_difficulty-eq-ok :
    (time : ℕ) (proved : Bool) (s t : State)
    → update_difficulty time proved s ≡ ok t
    → Updated time proved s t
unfolding update_difficulty checked_sub
update_difficulty-eq-ok time proved s t h =
    bind_ok (load s.miner_last_mined_timestamp) _ h λ last el h.
      bind_ok (load s.miner_difficulty) _ h λ d ed h.
        bind_ok (sub_word time last) _ h λ duration es h.
          let el' = load-eq-ok s.miner_last_mined_timestamp last el in
          let ed' = load-eq-ok s.miner_difficulty d ed in
          let (sum, _) = sub_word-eq-ok time last {y = duration} es in
          let span : last + duration ≡ time = omega (arith, sum) in
          let kept : s ≡ record s { miner_difficulty = some d } =
            λ i. record s { miner_difficulty = ed' i } in
          elim (Bool-cases (ltb 300 duration && ltb 1 d)) [
            | inl slow ↦
                bind_ok (checked_sub d 1) (λ x. ok (record s { miner_difficulty = some x }))
                  (rw slow at h)
                  λ d' e h. (
                    last,
                    d,
                    duration,
                    d',
                    el',
                    ed',
                    span,
                    lower (ground arith) (ground arith) (ground arith),
                    sym (ok-injective h),
                  )
            | inr not_slow ↦ elim (Bool-cases (ltb duration 20 && proved)) [
              | inl fast ↦
                  bind_ok (checked_add64 d 1) (λ x. ok (record s { miner_difficulty = some x }))
                    (rw (not_slow, fast) at h)
                    λ d' e h.
                      let fits = fit-eq-ok u64_mod overflow (d + 1) {y = d'} e in
                      (
                        last,
                        d,
                        duration,
                        d',
                        el',
                        ed',
                        span,
                        higher (ground arith) (ground arith) fits.0 (omega (arith, fits)),
                        sym (ok-injective h),
                      )
              | inr not_fast ↦ (
                last,
                d,
                duration,
                d,
                el',
                ed',
                span,
                same (ground arith) (ground arith) refl,
                sym (ok-injective (rw (not_slow, not_fast) at h)) ∙ kept,
              )
            ]
          ]
