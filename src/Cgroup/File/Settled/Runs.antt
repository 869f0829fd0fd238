-- ===== src/Cgroup/File/Settled/Runs.antt =====
-- What a cpuset file holds in a run of the writers and when they are done.
use titus_isolate.Prelude.{
  ℕ, ◌<◌, ◌≡◌, ◌⊎◌, inl, inr, refl, subst, String, true, false, List, [], ◌∷◌, Option, none, some,
  get_elem?, modify, keep_if, sum_by, sum_by-append, sum_by-modify, All, All-append, All-modify,
  All-get_elem?, All-keep_if, Bool-cases, string_eq, arith,
}
use titus_isolate.Cgroup.File.{
  Write, Writer, starting, written, added, dead, is_alive, FileCgroupManager, advance, start,
  run_thread, set_now, release_container, has_pending_work,
}
use titus_isolate.Cgroup.File.Steps.{
  Step, start_step, set_step, thread_step, release_step, pending_step, Run, stay, step,
  advance-threads,
}
use titus_isolate.Cgroup.File.Settled.{
  writes_cpuset, will_write, waits, Carries, waiting, ReadsBack, OnTheWay, advance-OnTheWay,
  advance-Reads,
}

module _ {Files : Type 0} (write : Write → Files → Option Files)
    (Reads : String → List ℕ → Files → Type 0) where
  module _ (files_back : ReadsBack write Reads) where
    run_thread-OnTheWay :
        (c : String) (ids : List ℕ) (fails : ℕ) (i : ℕ) (s : FileCgroupManager write)
        → OnTheWay write Reads c ids fails s
        → OnTheWay write Reads c ids fails (run_thread write i s)
    unfolding run_thread
    run_thread-OnTheWay c ids fails i s (carried, below, state) = go (get_elem? s.threads i) refl
      where
        right :
            (t : Writer)
            → get_elem? s.threads i ≡ some t
            → will_write c t ≡ true
            → let (next, after) = advance write t s in
              OnTheWay write Reads c ids fails
                (record after { threads = modify after.threads i (λ _. next) })
        right t e on =
            let (left, grows, carries) =
              advance-Reads write Reads files_back c ids t s on
                (All-get_elem? (Carries c ids) s.threads i carried e) in
            (
              rw (advance-threads write t s)
                  (All-modify (Carries c ids) s.threads i _ (λ _ _. carries) carried),
              omega arith,
              elim left [ inl r ↦ inr (inl r) | inr f ↦ inr (inr (omega arith)) ],
            )

        other :
            (t : Writer)
            → get_elem? s.threads i ≡ some t
            → will_write c t ≡ false
            → let (next, after) = advance write t s in
              OnTheWay write Reads c ids fails
                (record after { threads = modify after.threads i (λ _. next) })
        other t e off =
            let ((_, below1, state1), carries, still) =
              advance-OnTheWay write Reads files_back c ids fails t s off (carried, below, state) in
            let (next, after) = advance write t s in
            let threads1 = modify s.threads i (λ _. next) in
            let same : sum_by (waits c) threads1 ≡ waiting write c s =
              let moved = sum_by-modify (waits c) s.threads i (λ _. next) t e in
              ground (arith, moved, off, still) in
            let left =
              subst
                (λ (ts : List Writer).
                  (0 < sum_by (waits c) ts)
                  ⊎ (Reads c ids after.files ⊎ (fails < after.fail_count)))
                (advance-threads write t s) state1 in
            rw (advance-threads write t s) (
              All-modify (Carries c ids) s.threads i _ (λ _ _. carries) carried,
              below1,
              elim left [ inl p ↦ inl (omega (arith, same, p)) | inr r ↦ inr r ],
            )

        go :
            (o : Option Writer)
            → get_elem? s.threads i ≡ o
            → OnTheWay write Reads c ids fails (elim o [
              | none ↦ s
              | some t ↦
                  let (next, after) = advance write t s in
                  record after { threads = modify after.threads i (λ _. next) }
            ])
        go none e = (carried, below, state)
        go (some t) e = elim (Bool-cases (will_write c t)) [
          | inl on ↦ right t e on
          | inr off ↦ other t e off
        ]

    set_now-OnTheWay :
        (c : String) (ids : List ℕ) (fails : ℕ) (w : Write) (s : FileCgroupManager write)
        → writes_cpuset c w ≡ false
        → OnTheWay write Reads c ids fails s
        → OnTheWay write Reads c ids fails (set_now write w s)
    unfolding set_now
    set_now-OnTheWay c ids fails w s other h =
        let first = advance write (starting w) s in
        let second = advance write first.0 first.1 in
        let (way1, _, off1) =
          advance-OnTheWay write Reads files_back c ids fails (starting w) s other h in
        let (way2, _, off2) =
          advance-OnTheWay write Reads files_back c ids fails first.0 first.1 off1 way1 in
        (advance-OnTheWay write Reads files_back c ids fails second.0 second.1 off2 way2).0

    Carries-other :
        (c : String) (ids : List ℕ) (w : Write)
        → writes_cpuset c w ≡ false
        → Carries c ids (starting w)
    Carries-other c ids w other = λ on. cc

    start-OnTheWay :
        (c : String) (ids : List ℕ) (fails : ℕ) (w : Write) (s : FileCgroupManager write)
        → writes_cpuset c w ≡ false
        → OnTheWay write Reads c ids fails s
        → OnTheWay write Reads c ids fails (start write w s)
    unfolding start
    start-OnTheWay c ids fails w s other (carried, below, state) = (
      All-append (Carries c ids) s.threads (starting w ∷ []) carried
          (Carries-other c ids w other, tt),
      below,
      elim state [
        | inl p ↦ inl (omega (arith, sum_by-append (waits c) s.threads (starting w ∷ []), p))
        | inr r ↦ inr r
      ],
    )

    waits-keep_if :
        (c : String) (ts : List Writer)
        → sum_by (waits c) (keep_if is_alive ts) ≡ sum_by (waits c) ts
    waits-keep_if c [] = refl
    waits-keep_if c (starting w ∷ ts) = omega (arith, waits-keep_if c ts)
    waits-keep_if c (written d ∷ ts) = omega (arith, waits-keep_if c ts)
    waits-keep_if c (added ∷ ts) = omega (arith, waits-keep_if c ts)
    waits-keep_if c (dead ∷ ts) = omega (arith, waits-keep_if c ts)

    Step-OnTheWay :
        {ws : List Write} {s t : FileCgroupManager write} (c : String) (ids : List ℕ) (fails : ℕ)
        → Step write ws s t
        → All (λ w. writes_cpuset c w ≡ false) ws
        → OnTheWay write Reads c ids fails s
        → OnTheWay write Reads c ids fails t
    unfolding release_container has_pending_work
    Step-OnTheWay c ids fails (start_step w s) o h = start-OnTheWay c ids fails w s o.0 h
    Step-OnTheWay c ids fails (set_step w s) o h = set_now-OnTheWay c ids fails w s o.0 h
    Step-OnTheWay c ids fails (thread_step i s) o h = run_thread-OnTheWay c ids fails i s h
    Step-OnTheWay c ids fails (release_step d s) o h = h
    Step-OnTheWay c ids fails (pending_step s) o (carried, below, state) = (
      All-keep_if (Carries c ids) is_alive s.threads carried,
      below,
      elim state [ inl p ↦ inl (omega (arith, waits-keep_if c s.threads, p)) | inr r ↦ inr r ],
    )

    pub Run-OnTheWay :
        {wss : List (List Write)} {s t : FileCgroupManager write} (c : String) (ids : List ℕ)
        (fails : ℕ)
        → Run write wss s t
        → All (All (λ w. writes_cpuset c w ≡ false)) wss
        → OnTheWay write Reads c ids fails s
        → OnTheWay write Reads c ids fails t
    Run-OnTheWay c ids fails (stay s) o h = h
    Run-OnTheWay c ids fails (step e r) o h =
        Run-OnTheWay c ids fails r o.1 (Step-OnTheWay c ids fails e o.0 h)
