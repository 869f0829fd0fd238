-- ===== src/Cgroup/File/Justified.antt =====
-- Why a container is isolated.
use titus_isolate.Prelude.{
  ℕ, suc, ◌≡◌, refl, sym, String, true, List, [], ◌∷◌, Option, none, some, get_elem?, modify,
  contains, remove, All, All-append, All-modify, All-get_elem?, All-keep_if, string_eq, eq_cases,
  beq_ne, subst, inl, inr, arith,
}
use titus_isolate.Prelude.Sets.{contains-add_new}
use titus_isolate.Cgroup.File.{
  Write, Writer, starting, written, added, dead, is_alive, FileCgroupManager, new_manager, advance,
  start, run_thread, set_now, release_container, has_pending_work,
}
use titus_isolate.Cgroup.File.Steps.{
  Step, start_step, set_step, thread_step, release_step, pending_step, Run, stay, step,
  advance-threads,
}

module _ {Files : Type 0} (write : Write → Files → Option Files) where
  -- A write that the files took at some time.
  abbrev pub HasSucceeded : Write → Type 0
  HasSucceeded w = (before : Files) × (after : Files) × (write w before ≡ some after)

  -- One of the writes with a property was for a container, and has succeeded.
  abbrev pub WrittenFor : (Write → Type 0) → String → Type 0
  WrittenFor P c = (w : Write) × P w × (w.container_name ≡ c) × HasSucceeded w

  module _ (P : Write → Type 0) where
    abbrev IsJustified : Writer → Type 0
    IsJustified (starting w) = P w
    IsJustified (written c) = WrittenFor P c
    IsJustified added = Unit
    IsJustified dead = Unit

    abbrev AllWritten : FileCgroupManager write → Type 0
    AllWritten s = (c : String) → contains s.isolated_workload_ids c ≡ true → WrittenFor P c

    abbrev Justified : FileCgroupManager write → Type 0
    Justified s = All IsJustified s.threads × AllWritten s

    advance-Justified :
        (t : Writer) (s : FileCgroupManager write)
        → IsJustified t
        → AllWritten s
        → IsJustified (advance write t s).0 × AllWritten (advance write t s).1
    unfolding advance
    advance-Justified (starting w) s p all = go (write w s.files) refl
      where
        go :
            (o : Option Files)
            → write w s.files ≡ o
            → let (next, after) : Writer × FileCgroupManager write = elim o [
              | none ↦ (dead, record s { fail_count = suc s.fail_count })
              | some files ↦ (written w.container_name, record s { files = files })
            ] in
              IsJustified next × AllWritten after
        go none e = (tt, all)
        go (some files) e = ((w, p, refl, (s.files, files, e)), all)
    advance-Justified (written d) s for_d all = (
      tt,
      λ c on. elim (eq_cases c d) [
        | inl same ↦ subst (WrittenFor P) (sym same) for_d
        | inr other ↦
            all c
              (ground (arith, on, contains-add_new s.isolated_workload_ids d c, beq_ne c d other))
      ],
    )
    advance-Justified added s p all = (tt, all)
    advance-Justified dead s p all = (tt, all)

    run_thread-Justified :
        (i : ℕ) (s : FileCgroupManager write) → Justified s → Justified (run_thread write i s)
    unfolding run_thread
    run_thread-Justified i s (threads, all) = go (get_elem? s.threads i) refl
      where
        go :
            (o : Option Writer)
            → get_elem? s.threads i ≡ o
            → Justified (elim o [
              | none ↦ s
              | some t ↦
                  let (next, after) = advance write t s in
                  record after { threads = modify after.threads i (λ _. next) }
            ])
        go none e = (threads, all)
        go (some t) e =
            let (next, still) =
              advance-Justified t s (All-get_elem? IsJustified s.threads i threads e) all in
            (
              rw (advance-threads write t s)
                  (All-modify IsJustified s.threads i _ (λ _ _. next) threads),
              still,
            )

    set_now-Justified :
        (w : Write) (s : FileCgroupManager write)
        → P w
        → Justified s
        → Justified (set_now write w s)
    unfolding set_now
    set_now-Justified w s p (threads, all) =
        let first = advance write (starting w) s in
        let second = advance write first.0 first.1 in
        let (is1, all1) = advance-Justified (starting w) s p all in
        let (is2, all2) = advance-Justified first.0 first.1 is1 all1 in
        let (_, all3) = advance-Justified second.0 second.1 is2 all2 in
        (
          rw
              (
                advance-threads write second.0 second.1,
                advance-threads write first.0 first.1,
                advance-threads write (starting w) s,
              )
              threads,
          all3,
        )

    contains-removed :
        (xs : List String) (d c : String) → contains (remove xs d) c ≡ true → contains xs c ≡ true
    contains-removed [] d c h = cc
    contains-removed (x ∷ xs) d c h = ground (arith, h, contains-removed xs d c)

    Step-Justified :
        {ws : List Write} {s t : FileCgroupManager write}
        → Step write ws s t
        → All P ws
        → Justified s
        → Justified t
    unfolding start release_container has_pending_work
    Step-Justified (start_step w s) p (threads, all) =
        (All-append IsJustified s.threads (starting w ∷ []) threads (p.0, tt), all)
    Step-Justified (set_step w s) p j = set_now-Justified w s p.0 j
    Step-Justified (thread_step i s) p j = run_thread-Justified i s j
    Step-Justified (release_step d s) p (threads, all) =
        (threads, λ c on. all c (contains-removed s.isolated_workload_ids d c on))
    Step-Justified (pending_step s) p (threads, all) =
        (All-keep_if IsJustified is_alive s.threads threads, all)

    Run-Justified :
        {wss : List (List Write)} {s t : FileCgroupManager write}
        → Run write wss s t
        → All (All P) wss
        → Justified s
        → Justified t
    Run-Justified (stay s) p j = j
    Run-Justified (step e r) p j = Run-Justified r p.1 (Step-Justified e p.0 j)

    -- In every run from a new manager, whatever the order of the calls and the writers' steps, a container
    -- is isolated only if a write was asked for it, one with any property that all the writes that were
    -- asked for have, and the cgroup files took that write.
    pub Run-isolated :
        (files : Files) (wss : List (List Write)) (s : FileCgroupManager write) (c : String)
        → Run write wss (new_manager write files) s
        → All (All P) wss
        → contains s.isolated_workload_ids c ≡ true
        → WrittenFor P c
    unfolding new_manager
    Run-isolated files wss s c r p on = (Run-Justified r p (tt, λ d in_none. cc)).1 c on
