-- ===== src/Exporters/Metadata.antt =====
-- Metadata is written once.
use gc_scope.Base.{
  ℕ, ◌≡◌, refl, sym, ap, ◌∙◌, Bool, true, false, ◌&&◌, ◌||◌, List, [], ◌∷◌, ◌==◌, ==_iff,
  if◌then◌else◌, any, arith, Bool-cases, inl, inr,
}
use mathlib.Core.Path.{subst, ap₂}
use gc_scope.Base.Int.{ℤ, eqb_ℤ, eqb_ℤ_iff}
use gc_scope.Convert.{TraceEvent, process_meta, thread_meta, begin_span, end_span, instant, counter}
use gc_scope.Exporters.{ChromeTraceExporter, has_pid, has_track, skip}

-- What a set holds, it holds once more of.
has_pid-cons : (p q : ℕ) (s : List ℕ) → has_pid q s ≡ true → ((q == p) || has_pid p s) ≡ has_pid p s
has_pid-cons p q s h = elim (Bool-cases (q == p)) [
  | inl same ↦
      let here = ap (λ x. has_pid x s) (sym ((==_iff q p).0 same)) ∙ h in ground (arith, same, here)
  | inr other ↦ ground (arith, other)
]

has_track-cons :
    (t : ℕ × ℤ) (q : ℕ) (i : ℤ) (s : List (ℕ × ℤ))
    → has_track (q, i) s ≡ true
    → ((q == t.0 && eqb_ℤ i t.1) || has_track t s) ≡ has_track t s
has_track-cons (p, j) q i s h = elim (Bool-cases (q == p && eqb_ℤ i j)) [
  | inl same ↦
      let is_p : q ≡ p = (==_iff q p).0 (ground (arith, same)) in
      let is_j : i ≡ j = (eqb_ℤ_iff i j).0 (ground (arith, same)) in
      let here : has_track (p, j) s ≡ true =
        ap (λ x. has_track x s) (sym (ap₂ (λ a b. (a, b)) is_p is_j)) ∙ h in
      ground (arith, same, here)
  | inr other ↦ ground (arith, other)
]

module _ {F : Type 0} where
  -- An event names a process, or a track.
  abbrev pub names_pid : ℕ → TraceEvent F → Bool
  names_pid p (process_meta q _) = q == p
  names_pid p _ = false

  abbrev pub names_track : ℕ × ℤ → TraceEvent F → Bool
  names_track t (thread_meta q i _) = q == t.0 && eqb_ℤ i t.1
  names_track t _ = false

  -- An event names what one before it named.
  abbrev pub repeats : TraceEvent F → List (TraceEvent F) → Bool
  repeats (process_meta p _) before = any (names_pid p) before
  repeats (thread_meta p i _) before = any (names_track (p, i)) before
  repeats _ before = false

  -- The events that name nothing again, behind those before.
  unfoldable pub firsts : List (TraceEvent F) → List (TraceEvent F) → List (TraceEvent F)
  firsts before [] = []
  firsts before (e ∷ es) =
      let rest = firsts (e ∷ before) es in if repeats e before then rest else e ∷ rest

  -- The sets of an exporter hold what the events before named.
  pub record Knows (before : List (TraceEvent F)) (e : ChromeTraceExporter) : Type 0 where
    pub pids : (p : ℕ) → has_pid p e.pid_meta_done ≡ any (names_pid p) before
    pub tids : (t : ℕ × ℤ) → has_track t e.tid_meta_done ≡ any (names_track t) before

  -- What is skipped repeats what was before, and the sets take in the rest.
  abbrev pub Skipped :
      TraceEvent F → List (TraceEvent F) → ChromeTraceExporter → Bool × ChromeTraceExporter → Type 0
  Skipped event before e (skipped, e') =
      (skipped ≡ repeats event before)
      × Knows (event ∷ before) e'
      × (e'.has_written ≡ e.has_written)

  pub skip-Skipped :
      (event : TraceEvent F) (before : List (TraceEvent F)) (e : ChromeTraceExporter)
      → Knows before e
      → Skipped event before e (skip event e)
  unfolding skip has_pid has_track
  skip-Skipped (process_meta p name) before e k = elim (Bool-cases (has_pid p e.pid_meta_done)) [
    | inl done ↦
        let is : (true, e) ≡ skip {F = F} (process_meta p name) e = ground (arith, done) in
        subst (Skipped (process_meta p name) before e) is (
          sym done ∙ k.pids p,
          record {
            pids = λ q. ground (arith, k.pids q, has_pid-cons q p e.pid_meta_done done);
            tids = k.tids;
          },
          refl,
        )
    | inr new ↦
        let e' : ChromeTraceExporter = record e { pid_meta_done = p ∷ e.pid_meta_done } in
        let is : (false, e') ≡ skip {F = F} (process_meta p name) e = ground (arith, new) in
        subst (Skipped (process_meta p name) before e) is
          (sym new ∙ k.pids p, record { pids = λ q. ground (arith, k.pids q); tids = k.tids }, refl)
  ]
  skip-Skipped (thread_meta p i name) before e k =
      elim (Bool-cases (has_track (p, i) e.tid_meta_done)) [
        | inl done ↦
            let is : (true, e) ≡ skip {F = F} (thread_meta p i name) e = ground (arith, done) in
            subst (Skipped (thread_meta p i name) before e) is (
              sym done ∙ k.tids (p, i),
              record {
                pids = k.pids;
                tids = λ t.
                    let known = has_track-cons t p i e.tid_meta_done done in
                    ground (arith, k.tids t, known);
              },
              refl,
            )
        | inr new ↦
            let e' : ChromeTraceExporter = record e { tid_meta_done = (p, i) ∷ e.tid_meta_done } in
            let is : (false, e') ≡ skip {F = F} (thread_meta p i name) e = ground (arith, new) in
            subst (Skipped (thread_meta p i name) before e) is (
              sym new ∙ k.tids (p, i),
              record { pids = k.pids; tids = λ t. ground (arith, k.tids t) },
              refl,
            )
      ]
  skip-Skipped (begin_span _ _ _ _ _ _) before e k =
      (refl, record { pids = k.pids; tids = k.tids }, refl)
  skip-Skipped (end_span _ _ _ _ _) before e k =
      (refl, record { pids = k.pids; tids = k.tids }, refl)
  skip-Skipped (instant _ _ _) before e k = (refl, record { pids = k.pids; tids = k.tids }, refl)
  skip-Skipped (counter _ _ _ _ _) before e k =
      (refl, record { pids = k.pids; tids = k.tids }, refl)
