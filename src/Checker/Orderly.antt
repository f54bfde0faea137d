-- ===== src/Checker/Orderly.antt =====
-- The order among the records of `WorkloadTrace` of crates/simferret/src/checker.rs.
use simferret.Prelude.{
  ℕ, ◌+◌, ◌≤◌, ◌≡◌, refl, Bool, true, false, List, [], ◌∷◌, ◌++◌, arith, ◌==◌, if◌then◌else◌, any,
  count, In, All, All-append, In-append_left,
}
use simferret.Protocol.Violation.{Violation}
use simferret.Checker.Trace.{
  StartRecord, ExitRecord, TerminationRecord, CleanupRecord, WorkloadTrace, violate, violate_or,
  started, exited,
}

any-append {ℓ} :
    {A : Type ℓ} (p : A → Bool) (xs ys : List A) → any p xs ≡ true → any p (xs ++ ys) ≡ true
any-append p [] ys h = absurd (cc)
any-append p (x ∷ xs) ys h = ground (arith, any-append p xs ys)

-- No two elements have the same key.
pub record Once {ℓ} {A : Type ℓ} (key : A → ℕ) (xs : List A) : Type ℓ where
  pub at_most : (i : ℕ) → count (λ x. key x == i) xs ≤ 1

module _ {ℓ} {A : Type ℓ} (key : A → ℕ) where
  count-absent :
      (xs : List A) (i : ℕ) → any (λ x. key x == i) xs ≡ false → count (λ x. key x == i) xs ≡ 0
  count-absent [] i h = refl
  count-absent (x ∷ xs) i h = ground (arith, count-absent xs i)

  count-snoc :
      (xs : List A) (x : A) (i : ℕ)
      → count (λ y. key y == i) (xs ++ x ∷ [])
        ≡ count (λ y. key y == i) xs + (if key x == i then 1 else 0)
  count-snoc [] x i = ground arith
  count-snoc (y ∷ xs) x i = ground (arith, count-snoc xs x i)

  pub Once-snoc :
      (xs : List A) (x : A)
      → any (λ y. key y == key x) xs ≡ false
      → Once key xs
      → Once key (xs ++ x ∷ [])
  Once-snoc xs x fresh once = record {
    at_most = λ i. ground (arith, count-snoc xs x i, count-absent xs (key x) fresh, once.at_most i);
  }

abbrev pub exit_key : ExitRecord → ℕ
exit_key e = e.invocation

abbrev pub termination_key : TerminationRecord → ℕ
termination_key r = r.invocation

abbrev pub cleanup_key : CleanupRecord → ℕ
cleanup_key c = c.invocation

-- A cleanup's invocation has exited, no later than the cleanup.
pub record HasExited (exits : List ExitRecord) (c : CleanupRecord) : Type 0 where
  pub exit : ExitRecord
  pub in_exits : In exit exits
  pub same_invocation : exit.invocation ≡ c.invocation
  pub no_later : exit.event_id ≤ c.event_id

abbrev pub HasStarted : List StartRecord → ExitRecord → Type 0
HasStarted starts e = any (λ s. s.invocation == e.invocation) starts ≡ true

pub record IsOrderly (t : WorkloadTrace) : Type 0 where
  pub exits_started : All (HasStarted t.starts) t.exits
  pub cleanups_exited : All (HasExited t.exits) t.cleanups
  pub exits_once : Once exit_key t.exits
  pub terminations_once : Once termination_key t.terminations
  pub cleanups_once : Once cleanup_key t.cleanups

-- The records stay what they were.
pub same_records :
    (t u : WorkloadTrace)
    → u.starts ≡ t.starts
    → u.exits ≡ t.exits
    → u.terminations ≡ t.terminations
    → u.cleanups ≡ t.cleanups
    → IsOrderly t
    → IsOrderly u
same_records t u s e r c h = record {
  exits_started = rw (s, e) h.exits_started;
  cleanups_exited = rw (e, c) h.cleanups_exited;
  exits_once = rw e h.exits_once;
  terminations_once = rw r h.terminations_once;
  cleanups_once = rw c h.cleanups_once;
}

pub violate_or-IsOrderly :
    (t : WorkloadTrace) (test : Bool) (v : Violation) (u : WorkloadTrace)
    → IsOrderly t
    → (test ≡ false → IsOrderly u)
    → IsOrderly (violate_or t test v u)
unfolding violate_or
violate_or-IsOrderly t true v u h k = same_records t (violate t v) refl refl refl refl h
violate_or-IsOrderly t false v u h k = k refl

pub started-IsOrderly :
    (t : WorkloadTrace) (s : StartRecord)
    → IsOrderly t
    → IsOrderly (record t { starts = t.starts ++ s ∷ [] })
started-IsOrderly t s h = record {
  exits_started = still t.exits h.exits_started;
  cleanups_exited = h.cleanups_exited;
  exits_once = h.exits_once;
  terminations_once = h.terminations_once;
  cleanups_once = h.cleanups_once;
}
  where
    still :
        (exits : List ExitRecord)
        → All (HasStarted t.starts) exits
        → All (HasStarted (t.starts ++ s ∷ [])) exits
    still [] k = tt
    still (e ∷ exits) k =
        (any-append (λ s'. s'.invocation == e.invocation) t.starts (s ∷ []) k.0, still exits k.1)

pub exited-IsOrderly :
    (t : WorkloadTrace) (e : ExitRecord)
    → IsOrderly t
    → started t e.invocation ≡ true
    → exited t e.invocation ≡ false
    → IsOrderly (record t { exits = t.exits ++ e ∷ [] })
unfolding started exited
exited-IsOrderly t e h is_started fresh = record {
  exits_started =
      All-append (HasStarted t.starts) t.exits (e ∷ []) h.exits_started (is_started, tt);
  cleanups_exited = still t.cleanups h.cleanups_exited;
  exits_once = Once-snoc exit_key t.exits e fresh h.exits_once;
  terminations_once = h.terminations_once;
  cleanups_once = h.cleanups_once;
}
  where
    still :
        (cleanups : List CleanupRecord)
        → All (HasExited t.exits) cleanups
        → All (HasExited (t.exits ++ e ∷ [])) cleanups
    still [] k = tt
    still (c ∷ cleanups) k = (
      record {
        exit = k.0.exit;
        in_exits = In-append_left t.exits (e ∷ []) k.0.in_exits;
        same_invocation = k.0.same_invocation;
        no_later = k.0.no_later;
      },
      still cleanups k.1,
    )
