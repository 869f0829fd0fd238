-- ===== src/Cgroup/File/Settled.antt =====
-- What a cpuset file holds while writers are at work.
pub mod Runs
use titus_isolate.Prelude.{
  ℕ, suc, ◌+◌, ◌<◌, ◌≤◌, ◌≡◌, ◌⊎◌, inl, inr, refl, sym, ap, ◌∙◌, subst, String, Bool, true, false,
  ◌==◌, ◌&&◌, List, [], ◌∷◌, ◌++◌, Option, none, some, get_elem?, modify, keep_if, length, ltb,
  sum_by, sum_by-append, sum_by-modify, if◌then◌else◌, All, All-append, All-modify, All-get_elem?,
  All-keep_if, Bool-cases, string_eq, arith,
}
use titus_isolate.Cgroup.File.{
  Setting, cpuset, quota, shares, memory_migrate, memory_spread_page, memory_spread_slab, Value,
  thread_ids, Write, Writer, starting, written, added, dead, is_alive, FileCgroupManager, advance,
  start, run_thread, set_now, release_container, has_pending_work,
}
use titus_isolate.Cgroup.File.Steps.{
  Step, start_step, set_step, thread_step, release_step, pending_step, Run, stay, step,
  advance-threads,
}

abbrev pub is_cpuset : Setting → Bool
is_cpuset cpuset = true
is_cpuset quota = false
is_cpuset shares = false
is_cpuset memory_migrate = false
is_cpuset memory_spread_page = false
is_cpuset memory_spread_slab = false

-- A write of the cpuset of a container.
abbrev pub writes_cpuset : String → Write → Bool
writes_cpuset c w = is_cpuset w.func && (c == w.container_name)

-- A writer that is yet to write the cpuset of a container.
abbrev pub will_write : String → Writer → Bool
will_write c (starting w) = writes_cpuset c w
will_write c (written d) = false
will_write c added = false
will_write c dead = false

abbrev pub waits : String → Writer → ℕ
waits c t = if will_write c t then 1 else 0

-- If a writer is yet to write the cpuset of a container, it will write given ids.
abbrev pub Carries : String → List ℕ → Writer → Type 0
Carries c ids (starting w) = writes_cpuset c w ≡ true → w.value ≡ thread_ids ids
Carries c ids (written d) = Unit
Carries c ids added = Unit
Carries c ids dead = Unit

module _ {Files : Type 0} (write : Write → Files → Option Files) where
  -- How many writers are yet to write the cpuset of a container.
  abbrev pub waiting : String → FileCgroupManager write → ℕ
  waiting c s = sum_by (waits c) s.threads

  no_waiting :
      (c : String) (ts : List Writer) → length (keep_if is_alive ts) ≡ 0 → sum_by (waits c) ts ≡ 0
  no_waiting c [] h = refl
  no_waiting c (starting w ∷ ts) h = absurd (omega arith)
  no_waiting c (written d ∷ ts) h = absurd (omega arith)
  no_waiting c (added ∷ ts) h = absurd (omega arith)
  no_waiting c (dead ∷ ts) h = omega (arith, no_waiting c ts h)

  pub has_pending_work-waiting :
      (c : String) (s : FileCgroupManager write)
      → (has_pending_work write s).0 ≡ false
      → waiting c s ≡ 0
  unfolding has_pending_work
  has_pending_work-waiting c s idle = no_waiting c s.threads (ground (arith, idle))

module _ {Files : Type 0} (write : Write → Files → Option Files)
    (Reads : String → List ℕ → Files → Type 0) where
  -- A cpuset that is written is read back, and any other write leaves it.
  pub record ReadsBack : Type 0 where
    pub back :
        (c : String) (ids : List ℕ) (w : Write) (before after : Files)
        → writes_cpuset c w ≡ true
        → w.value ≡ thread_ids ids
        → write w before ≡ some after
        → Reads c ids after
    pub leaves :
        (c : String) (ids : List ℕ) (w : Write) (before after : Files)
        → writes_cpuset c w ≡ false
        → write w before ≡ some after
        → Reads c ids before
        → Reads c ids after

  -- A cpuset file has given ids, or a writer is to write these, or more than `fails` writes failed;
  -- and no writer is to write others.
  abbrev pub OnTheWay : String → List ℕ → ℕ → FileCgroupManager write → Type 0
  OnTheWay c ids fails s =
      All (Carries c ids) s.threads
      × (fails ≤ s.fail_count)
      × ((0 < waiting write c s) ⊎ (Reads c ids s.files ⊎ (fails < s.fail_count)))

  module _ (files_back : ReadsBack) where
    open files_back use {back, leaves}

    -- A writer with another file to write.
    pub advance-OnTheWay :
        (c : String) (ids : List ℕ) (fails : ℕ) (t : Writer) (s : FileCgroupManager write)
        → will_write c t ≡ false
        → OnTheWay c ids fails s
        → OnTheWay c ids fails (advance write t s).1
          × Carries c ids (advance write t s).0
          × (will_write c (advance write t s).0 ≡ false)
    unfolding advance
    advance-OnTheWay c ids fails (starting w) s other (carried, below, state) =
        go (write w s.files) refl
      where
        go :
            (o : Option Files)
            → write w s.files ≡ o
            → let (next, after) : Writer × FileCgroupManager write = elim o [
              | none ↦ (dead, record s { fail_count = suc s.fail_count })
              | some files ↦ (written w.container_name, record s { files = files })
            ] in
              OnTheWay c ids fails after × Carries c ids next × (will_write c next ≡ false)
        go none e = ((carried, omega arith, inr (inr (omega arith))), tt, refl)
        go (some files) e = ((carried, below, kept state), tt, refl)
          where
            kept :
                ((0 < waiting write c s) ⊎ (Reads c ids s.files ⊎ (fails < s.fail_count)))
                → ((0 < waiting write c s) ⊎ (Reads c ids files ⊎ (fails < s.fail_count)))
            kept (inl p) = inl p
            kept (inr (inl r)) = inr (inl (leaves c ids w s.files files other e r))
            kept (inr (inr f)) = inr (inr f)
    advance-OnTheWay c ids fails (written d) s other h = (h, tt, refl)
    advance-OnTheWay c ids fails added s other h = (h, tt, refl)
    advance-OnTheWay c ids fails dead s other h = (h, tt, refl)

    -- A writer of the cpuset itself: what it leaves is right, or it failed.
    pub advance-Reads :
        (c : String) (ids : List ℕ) (t : Writer) (s : FileCgroupManager write)
        → will_write c t ≡ true
        → Carries c ids t
        → (Reads c ids (advance write t s).1.files
            ⊎ (s.fail_count < (advance write t s).1.fail_count))
          × (s.fail_count ≤ (advance write t s).1.fail_count)
          × Carries c ids (advance write t s).0
    unfolding advance
    advance-Reads c ids (starting w) s on carries = go (write w s.files) refl
      where
        go :
            (o : Option Files)
            → write w s.files ≡ o
            → let (next, after) : Writer × FileCgroupManager write = elim o [
              | none ↦ (dead, record s { fail_count = suc s.fail_count })
              | some files ↦ (written w.container_name, record s { files = files })
            ] in
              (Reads c ids after.files ⊎ (s.fail_count < after.fail_count))
              × (s.fail_count ≤ after.fail_count)
              × Carries c ids next
        go none e = (inr (omega arith), omega arith, tt)
        go (some files) e = (inl (back c ids w s.files files on (carries on) e), omega arith, tt)
    advance-Reads c ids (written d) s on carries = cc
    advance-Reads c ids added s on carries = cc
    advance-Reads c ids dead s on carries = cc
