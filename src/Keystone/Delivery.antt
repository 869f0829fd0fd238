-- ===== src/Keystone/Delivery.antt =====
-- No message that is answered is lost, and each is delivered once the service answers.
use titus_isolate.Prelude.{
  ℕ, zero, suc, ◌+◌, ◌-◌, ◌≤◌, ◌<◌, ◌≡◌, refl, sym, ap, ◌∙◌, subst, Bool, true, false, List, [],
  ◌∷◌, ◌++◌, if◌then◌else◌, nat_beq, length, length-append, Result, ok, raise, Bool-cases, inl, inr,
  arith,
}
use titus_isolate.Keystone.{
  KeystoneEventLogManager, answered, take_next, process_event, process_events,
}

module _ {Payload Msg : Type 0} (new_msg : Payload → Result Msg) (answer : ℕ → Msg → Result ℕ) where
  abbrev Manager : Type 0
  Manager = KeystoneEventLogManager new_msg answer

  -- The messages that wait, were sent, or failed.
  abbrev accounted : Manager → ℕ
  accounted s = length s.q + (s.succeeded_msg_count + s.failed_msg_count)

  answered-accounted :
      (msg : Msg) (r : Result ℕ) (s : Manager)
      → (accounted (answered new_msg answer msg r s) ≡ suc (accounted s))
        × ((answered new_msg answer msg r s).enabled ≡ s.enabled)
  answered-accounted msg (raise e) s = (omega arith, refl)
  answered-accounted msg (ok status_code) s = elim (Bool-cases (nat_beq status_code 200)) [
    | inl good ↦ rw good (omega arith, refl)
    | inr bad ↦ rw bad (omega (arith, length-append s.q (msg ∷ [])), refl)
  ]

  take_next-enabled :
      (msg : Msg) (q : List Msg) (s : Manager)
      → s.enabled ≡ true
      → take_next new_msg answer (msg ∷ q) s
        ≡ answered new_msg answer msg (answer s.sent msg) (record s { q = q; sent = suc s.sent })
  take_next-enabled msg q s h =
      ap
        (λ (b : Bool).
          if b
          then answered new_msg answer msg (answer s.sent msg)
              (record s { q = q; sent = suc s.sent })
          else record s { q = q })
        h

  next-accounted :
      (q : List Msg) (s : Manager)
      → s.q ≡ q
      → s.enabled ≡ true
      → (accounted (take_next new_msg answer q s) ≡ accounted s)
        × ((take_next new_msg answer q s).enabled ≡ true)
  next-accounted [] s e h = (refl, h)
  next-accounted (msg ∷ q) s e h =
      let taken : Manager = record s { q = q; sent = suc s.sent } in
      let (a, b) = answered-accounted msg (answer s.sent msg) taken in
      let step = take_next-enabled msg q s h in
      let waiting : length s.q ≡ suc (length q) = ap length e in
      (ap accounted step ∙ (a ∙ omega arith), ap (λ (x : Manager). x.enabled) step ∙ (b ∙ h))

  answered-failed :
      (msg : Msg) (status_code : ℕ) (s : Manager)
      → (answered new_msg answer msg (ok status_code) s).failed_msg_count ≡ s.failed_msg_count
  answered-failed msg status_code s = elim (Bool-cases (nat_beq status_code 200)) [
    | inl good ↦ rw good refl
    | inr bad ↦ rw bad refl
  ]

  -- No request raises: each is answered with some status.
  abbrev pub AlwaysAnswers : Type 0
  AlwaysAnswers = (i : ℕ) (msg : Msg) → (status : ℕ) × (answer i msg ≡ ok status)

  next-failed :
      (q : List Msg) (s : Manager)
      → AlwaysAnswers
      → s.enabled ≡ true
      → (take_next new_msg answer q s).failed_msg_count ≡ s.failed_msg_count
  next-failed [] s answers h = refl
  next-failed (msg ∷ q) s answers h =
      let taken : Manager = record s { q = q; sent = suc s.sent } in
      let (status, e) = answers s.sent msg in
      ap (λ (x : Manager). x.failed_msg_count)
        (take_next-enabled msg q s h ∙ ap (λ r. answered new_msg answer msg r taken) e)
      ∙ answered-failed msg status taken

  accounted-kept :
      (n : ℕ) (s : Manager)
      → AlwaysAnswers
      → s.enabled ≡ true
      → let after = process_events new_msg answer n s in
        (accounted after ≡ accounted s) × (after.failed_msg_count ≡ s.failed_msg_count)
  unfolding process_events process_event
  accounted-kept zero s answers h = (refl, refl)
  accounted-kept (suc n) s answers h =
      let (a, b) = next-accounted s.q s refl h in
      let (c, d) = accounted-kept n (process_event new_msg answer s) answers b in
      (c ∙ a, d ∙ next-failed s.q s answers h)

  -- While keystone is enabled and no request raises, no message that was taken into the queue is lost,
  -- whatever the statuses of the answers: after any number of rounds the messages that wait and those
  -- that were sent are together as many as before.
  pub process_events-kept :
      (n : ℕ) (s : Manager)
      → AlwaysAnswers
      → s.enabled ≡ true
      → let after = process_events new_msg answer n s in
        length after.q + after.succeeded_msg_count ≡ length s.q + s.succeeded_msg_count
  process_events-kept n s answers h = let (a, b) = accounted-kept n s answers h in omega arith

  process_events-empty : (n : ℕ) (s : Manager) → s.q ≡ [] → process_events new_msg answer n s ≡ s
  unfolding process_events process_event
  process_events-empty zero s e = refl
  process_events-empty (suc n) s e =
      let same : process_event new_msg answer s ≡ s =
        ap (λ (q : List Msg). take_next new_msg answer q s) e in
      ap (process_events new_msg answer n) same ∙ process_events-empty n s e

  -- Of two managers the second comes after the first: it has sent the rest of the first's queue.
  abbrev Delivered : Manager → Manager → Type 0
  Delivered s after =
      (after.q ≡ [])
      × (after.succeeded_msg_count ≡ s.succeeded_msg_count + length s.q)
      × (after.failed_msg_count ≡ s.failed_msg_count)

  -- A message was sent, and the rest of the queue will be.
  Delivered-sent :
      (msg : Msg) (q : List Msg) (s after : Manager)
      → s.q ≡ msg ∷ q
      → Delivered
          (record s { q = q; sent = suc s.sent; succeeded_msg_count = suc s.succeeded_msg_count })
          after
      → Delivered s after
  Delivered-sent msg q s after e (a, b, c) =
      (a, b ∙ (let l : length s.q ≡ length (msg ∷ q) = ap length e in omega arith), c)

  -- A message was put back.
  Delivered-again :
      (msg : Msg) (q : List Msg) (s after : Manager)
      → s.q ≡ msg ∷ q
      → Delivered
          (record s {
            q = q ++ msg ∷ [];
            sent = suc s.sent;
            retry_msg_count = suc s.retry_msg_count;
          })
          after
      → Delivered s after
  Delivered-again msg q s after e (a, b, c) = (
    a,
    b
        ∙ (let l : length s.q ≡ length (msg ∷ q) = ap length e in
            omega (arith, length-append q (msg ∷ []))),
    c,
  )

  not_yet :
      (i k : ℕ) (msg : Msg) (status : ℕ)
      → answer i msg ≡ ok status
      → nat_beq status 200 ≡ false
      → ((j : ℕ) (msg : Msg) → i + k ≤ j → answer j msg ≡ ok 200)
      → 0 < k
  not_yet i zero msg status r other good =
      let e : ok status ≡ ok 200 = sym r ∙ good i msg (omega arith) in ground arith
  not_yet i (suc k) msg status r other good = omega arith

  delivered :
      (n k : ℕ) (q : List Msg) (s : Manager)
      → s.q ≡ q
      → s.enabled ≡ true
      → ((i : ℕ) (msg : Msg) → (status : ℕ) × (answer i msg ≡ ok status))
      → ((i : ℕ) (msg : Msg) → s.sent + k ≤ i → answer i msg ≡ ok 200)
      → k + length q ≤ n
      → Delivered s (process_events new_msg answer n s)
  unfolding process_events process_event
  delivered n k [] s e h some_status good l =
      let none_left : length s.q ≡ 0 = ap length e in
      subst (Delivered s) (sym (process_events-empty n s e)) (e, omega arith, refl)
  delivered zero k (msg ∷ q) s e h some_status good l = absurd (omega arith)
  delivered (suc n) k (msg ∷ q) s e h some_status good l =
      let (status, r) = some_status s.sent msg in
      let taken : Manager = record s { q = q; sent = suc s.sent } in
      let step : process_event new_msg answer s ≡ answered new_msg answer msg (ok status) taken =
        ap (λ (ms : List Msg). take_next new_msg answer ms s) e
        ∙ (take_next-enabled msg q s h ∙ ap (λ r. answered new_msg answer msg r taken) r) in
      subst (λ x. Delivered s (process_events new_msg answer n x)) (sym step)
        (elim (Bool-cases (nat_beq status 200)) [
          | inl sent ↦ rw sent (
              let next : Manager = record taken {
                succeeded_msg_count = suc s.succeeded_msg_count;
              } in
              Delivered-sent msg q s (process_events new_msg answer n next) e (
                delivered n k q next refl h some_status (λ i m le. good i m (omega arith))
                  (omega arith)))
          | inr other ↦ rw other (
              let late = not_yet s.sent k msg status r other good in
              let next : Manager = record taken {
                q = q ++ msg ∷ [];
                retry_msg_count = suc s.retry_msg_count;
              } in
              Delivered-again msg q s (process_events new_msg answer n next) e (
                delivered n (k - 1) (q ++ msg ∷ []) next refl h some_status
                  (λ i m le. good i m (omega arith)) (omega (arith, length-append q (msg ∷ [])))))
        ])

  -- If keystone is enabled, no request raises, and every request after the next k is answered with 200,
  -- then k rounds more than there are messages in the queue, or any more, leave it empty: all its
  -- messages were sent, and none failed.
  pub process_events-Delivered :
      (n k : ℕ) (s : Manager)
      → s.enabled ≡ true
      → ((i : ℕ) (msg : Msg) → (status : ℕ) × (answer i msg ≡ ok status))
      → ((i : ℕ) (msg : Msg) → s.sent + k ≤ i → answer i msg ≡ ok 200)
      → k + length s.q ≤ n
      → let after = process_events new_msg answer n s in
        (after.q ≡ [])
        × (after.succeeded_msg_count ≡ s.succeeded_msg_count + length s.q)
        × (after.failed_msg_count ≡ s.failed_msg_count)
  process_events-Delivered n k s h some_status good l =
      delivered n k s.q s refl h some_status good l
