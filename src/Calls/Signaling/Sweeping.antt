-- ===== src/Calls/Signaling/Sweeping.antt =====
-- What the sweep of CallSignalingService leaves behind (`endExpiredCalls` of
-- apps/api/src/db/calls.ts).
use videochat.Prelude.{
  ℕ, ◌-◌, ◌*◌, ◌≤◌, ◌≡◌, refl, false, Option, none, some, List, [], ◌∷◌, arith, All, set_where,
  Bool-cases, inl, inr, null_lt, update-none, All-imp,
}
use videochat.Calls.Table.{
  CallRow, ringing, active, missed_where, lost_where, end_expired_calls, ended, end_set,
  connection_lost, missed, status_eq,
}

-- Not unanswered past the ring timeout, and no participant gone past the grace period.
pub record IsInTime (now ring grace : ℕ) (r : CallRow) : Type 0 where
  pub answered_or_early : r.status ≡ ringing → now - ring * 1000 ≤ r.created_at
  pub caller_back :
      (t : ℕ) → r.status ≡ active → r.caller_disconnected_at ≡ some t → now - grace * 1000 ≤ t
  pub callee_back :
      (t : ℕ) → r.status ≡ active → r.callee_disconnected_at ≡ some t → now - grace * 1000 ≤ t

module _ (now ring grace : ℕ) where
  IsInTime-ended : (r : CallRow) → r.status ≡ ended → IsInTime now ring grace r
  IsInTime-ended r e = record {
    answered_or_early = λ h. cc;
    caller_back = λ t h g. cc;
    callee_back = λ t h g. cc;
  }

  IsInTime-kept :
      (r : CallRow)
      → missed_where (now - ring * 1000) r ≡ false
      → lost_where (now - grace * 1000) r ≡ false
      → IsInTime now ring grace r
  IsInTime-kept r m l = record {
    answered_or_early = λ h. ground arith;
    caller_back = λ t h g. ground arith;
    callee_back = λ t h g. ground arith;
  }

  IsInTime-row :
      (r : CallRow)
      → IsInTime now ring grace (
          set_where
            (lost_where (now - grace * 1000))
            (end_set connection_lost now)
            (set_where (missed_where (now - ring * 1000)) (end_set missed now) r))
  IsInTime-row r = elim (Bool-cases (missed_where (now - ring * 1000) r)) [
    | inl late ↦ rw late (IsInTime-ended (end_set missed now r) refl)
    | inr early ↦ rw early (elim (Bool-cases (lost_where (now - grace * 1000) r)) [
      | inl lost ↦ rw lost (IsInTime-ended (end_set connection_lost now r) refl)
      | inr kept ↦ rw kept (IsInTime-kept r early kept)
    ])
  ]

  IsInTime-expired :
      (calls : List CallRow)
      → All (IsInTime now ring grace) (end_expired_calls calls now ring grace).0
  unfolding end_expired_calls
  IsInTime-expired [] = tt
  IsInTime-expired (r ∷ calls) = (IsInTime-row r, IsInTime-expired calls)

  not_missed :
      (r : CallRow) → IsInTime now ring grace r → missed_where (now - ring * 1000) r ≡ false
  not_missed r h = ground (arith, h.answered_or_early)

  -- A disconnection time of an active call, against the cutoff.
  not_null_lt :
      (cutoff : ℕ) (o : Option ℕ) → ((t : ℕ) → o ≡ some t → cutoff ≤ t) → null_lt o cutoff ≡ false
  not_null_lt cutoff none h = refl
  not_null_lt cutoff (some t) h = ground (arith, h t refl)

  not_lost : (r : CallRow) → IsInTime now ring grace r → lost_where (now - grace * 1000) r ≡ false
  not_lost r h = elim (Bool-cases (status_eq r.status active)) [
    | inl is_active ↦
        let e : r.status ≡ active = ground arith in
        ground (
          arith,
          not_null_lt (now - grace * 1000) r.caller_disconnected_at (λ t. h.caller_back t e),
          not_null_lt (now - grace * 1000) r.callee_disconnected_at (λ t. h.callee_back t e),
        )
    | inr other ↦ rw other
  ]

  nothing-overdue :
      (calls : List CallRow)
      → All (IsInTime now ring grace) calls
      → end_expired_calls calls now ring grace ≡ (calls, [])
  unfolding end_expired_calls
  nothing-overdue calls h =
      let (same_m, none_m) =
        update-none (missed_where (now - ring * 1000)) (end_set missed now) calls
          (All-imp (IsInTime now ring grace) _ calls not_missed h) in
      let (same_l, none_l) =
        update-none (lost_where (now - grace * 1000)) (end_set connection_lost now) calls
          (All-imp (IsInTime now ring grace) _ calls not_lost h) in
      rw (same_m, none_m) (rw (same_l, none_l))

-- After a sweep every call is in time: none still rings past the ring timeout, and none is active with a
-- participant gone past the grace period. A second sweep at the same moment, on this or any other
-- node, changes nothing and ends no call.
pub sweep_settles :
    (calls : List CallRow) (now ring grace : ℕ)
    → let calls' = (end_expired_calls calls now ring grace).0 in
      All (IsInTime now ring grace) calls'
      × (end_expired_calls calls' now ring grace ≡ (calls', []))
sweep_settles calls now ring grace = (
  IsInTime-expired now ring grace calls,
  nothing-overdue now ring grace _ (IsInTime-expired now ring grace calls),
)
