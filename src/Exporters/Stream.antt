-- ===== src/Exporters/Stream.antt =====
-- What a trace file holds.
use gc_scope.Base.{
  ℕ, ◌≡◌, refl, sym, ap, ◌∙◌, Bool, true, false, not, ◌&&◌, some, List, [], ◌∷◌, ◌++◌,
  if◌then◌else◌, arith, Bool-cases, inl, inr,
}
use mathlib.Core.Path.{subst, ap₂}
use mathlib.Core.List.{append_assoc, append-nil}
use gc_scope.Convert.{TraceEvent}
use gc_scope.Exporters.Metadata.{repeats, firsts, Knows, skip-Skipped}
use gc_scope.Exporters.{
  ChromeTraceExporter, has_pid, has_track, skip, write_event, encode, add_event, add_all,
  add_events, open_file, close,
}

abbrev is_empty : {A : Type 0} → List A → Bool
is_empty [] = true
is_empty (_ ∷ _) = false

-- Batches, one behind the other.
abbrev pub flat : {A : Type 0} → List (List A) → List A
flat [] = []
flat (b ∷ bs) = b ++ flat bs

module _ {F : Type 0} (display : F → List ℕ) where
  -- The text of events, with no end yet.
  unfoldable pub body : Bool → List (TraceEvent F) → List ℕ
  unfolding write_event
  body first [] = []
  body first (e ∷ es) = write_event first (encode display e) ++ body false es

  -- The text of a file of events.
  unfoldable pub document : List (TraceEvent F) → List ℕ
  unfolding body
  document [] = 91 ∷ 93 ∷ 10 ∷ []
  document (e ∷ es) = body true (e ∷ es) ++ (10 ∷ 93 ∷ [])

  body-snoc :
      (first : Bool) (es : List (TraceEvent F)) (e : TraceEvent F)
      → body first (es ++ (e ∷ []))
        ≡ body first es ++ write_event (first && is_empty es) (encode display e)
  unfolding body
  body-snoc true [] e = append-nil (write_event true (encode display e))
  body-snoc false [] e = append-nil (write_event false (encode display e))
  body-snoc true (x ∷ es) e =
      ap (λ t. write_event true (encode display x) ++ t) (body-snoc false es e)
      ∙ sym (append_assoc (write_event true (encode display x)) (body false es) _)
  body-snoc false (x ∷ es) e =
      ap (λ t. write_event false (encode display x) ++ t) (body-snoc false es e)
      ∙ sym (append_assoc (write_event false (encode display x)) (body false es) _)

  snoc-more : (es : List (TraceEvent F)) (e : TraceEvent F) → not (is_empty (es ++ (e ∷ []))) ≡ true
  snoc-more [] e = refl
  snoc-more (x ∷ es) e = refl

  -- One event more of those that are first.
  step :
      (e : TraceEvent F) (before written events : List (TraceEvent F))
      → (if repeats e before then written else written ++ (e ∷ [])) ++ firsts (e ∷ before) events
        ≡ written ++ firsts before (e ∷ events)
  unfolding firsts
  step e before written events = elim (Bool-cases (repeats e before)) [
    | inl again ↦ ground (arith, again)
    | inr new ↦
        let assoc = append_assoc written (e ∷ []) (firsts (e ∷ before) events) in
        ground (arith, new, assoc)
  ]

  -- The text and the sets behind some events, of which some are written.
  abbrev Stands : List (TraceEvent F) → List (TraceEvent F) → List ℕ × ChromeTraceExporter → Type 0
  Stands before written (text, e) =
      (text ≡ body true written) × (e.has_written ≡ not (is_empty written)) × Knows before e

  add_event-Stands :
      (event : TraceEvent F) (before written : List (TraceEvent F))
      (s : List ℕ × ChromeTraceExporter)
      → Stands before written s
      → Stands
          (event ∷ before)
          (if repeats event before then written else written ++ (event ∷ []))
          (add_event display event s)
  unfolding add_event
  add_event-Stands event before written (text, e) h =
      let (skipped, knows, kept) = skip-Skipped event before e h.2 in
      let e' = (skip event e).1 in
      elim (Bool-cases (repeats event before)) [
        | inl again ↦
            let is : (text, e') ≡ add_event display event (text, e) =
              ground (arith, skipped, again) in
            let same : written
                ≡ (if repeats event before then written else written ++ (event ∷ [])) =
              ground (arith, again) in
            subst (λ w. Stands (event ∷ before) w (add_event display event (text, e))) same
              (subst (Stands (event ∷ before) written) is (h.0, kept ∙ h.1, knows))
        | inr new ↦
            let text' = text ++ write_event (not e'.has_written) (encode display event) in
            let e'' : ChromeTraceExporter = record e' { has_written = true } in
            let is : (text', e'') ≡ add_event display event (text, e) =
              ground (arith, skipped, new) in
            let more : written ++ (event ∷ [])
                ≡ (if repeats event before then written else written ++ (event ∷ [])) =
              ground (arith, new) in
            let first : not e'.has_written ≡ is_empty written = ground (arith, kept, h.1) in
            subst (λ w. Stands (event ∷ before) w (add_event display event (text, e))) more
              (subst (Stands (event ∷ before) (written ++ (event ∷ []))) is (
                ap₂ (λ t b. t ++ write_event b (encode display event)) h.0 first
                    ∙ sym (body-snoc true written event),
                sym (snoc-more written event),
                record { pids = knows.pids; tids = knows.tids },
              ))
      ]

  -- Events behind those before, the last first.
  abbrev onto : List (TraceEvent F) → List (TraceEvent F) → List (TraceEvent F)
  onto [] before = before
  onto (e ∷ es) before = onto es (e ∷ before)

  add_all-Stands :
      (events before written : List (TraceEvent F)) (s : List ℕ × ChromeTraceExporter)
      → Stands before written s
      → Stands (onto events before) (written ++ firsts before events) (add_all display events s)
  unfolding add_all firsts
  add_all-Stands [] before written s h = subst (λ w. Stands before w s) (sym (append-nil written)) h
  add_all-Stands (e ∷ events) before written s h =
      let one = add_event-Stands e before written s h in
      let next = if repeats e before then written else written ++ (e ∷ []) in
      let all = add_all-Stands events (e ∷ before) next (add_event display e s) one in
      subst (λ w. Stands (onto events (e ∷ before)) w (add_all display (e ∷ events) s))
        (step e before written events) all

  abbrev pub add_batches : List (List (TraceEvent F)) → ChromeTraceExporter → ChromeTraceExporter
  add_batches [] e = e
  add_batches (b ∷ bs) e = add_batches bs (add_events display b e)

  firsts-append :
      (xs ys before : List (TraceEvent F))
      → firsts before (xs ++ ys) ≡ firsts before xs ++ firsts (onto xs before) ys
  unfolding firsts
  firsts-append [] ys before = refl
  firsts-append (x ∷ xs) ys before = ground (arith, firsts-append xs ys (x ∷ before))

  -- An open file that holds these events.
  abbrev IsOpen : List (TraceEvent F) → List (TraceEvent F) → ChromeTraceExporter → Type 0
  IsOpen before written e = (text : List ℕ) × (e.file ≡ some text) × Stands before written (text, e)

  add_events-IsOpen :
      (events before written : List (TraceEvent F)) (e : ChromeTraceExporter)
      → IsOpen before written e
      → IsOpen (onto events before) (written ++ firsts before events) (add_events display events e)
  unfolding add_events
  add_events-IsOpen events before written e (text, held, h) =
      let after = add_all display events (text, e) in
      let e' : ChromeTraceExporter = record after.1 { file = some after.0 } in
      let all = add_all-Stands events before written (text, e) h in
      let is : e' ≡ add_events display events e = ground (arith, held) in
      subst (IsOpen (onto events before) (written ++ firsts before events)) is
        (after.0, refl, (all.0, all.1, record { pids = all.2.pids; tids = all.2.tids }))

  add_batches-IsOpen :
      (batches : List (List (TraceEvent F))) (before written : List (TraceEvent F))
      (e : ChromeTraceExporter)
      → IsOpen before written e
      → (before' : List (TraceEvent F)) × IsOpen before'
          (written ++ firsts before (flat batches))
          (add_batches batches e)
  unfolding firsts
  add_batches-IsOpen [] before written e h =
      (before, subst (λ w. IsOpen before w e) (sym (append-nil written)) h)
  add_batches-IsOpen (b ∷ bs) before written e h =
      let one = add_events-IsOpen b before written e h in
      let (before', all) =
        add_batches-IsOpen bs (onto b before) (written ++ firsts before b) (add_events display b e)
          one in
      (
        before',
        subst (λ w. IsOpen before' w (add_batches bs (add_events display b e)))
            (append_assoc written (firsts before b) (firsts (onto b before) (flat bs))
              ∙ ap (λ t. written ++ t) (sym (firsts-append b (flat bs) before)))
            all,
      )

  close-document :
      (before written : List (TraceEvent F)) (e : ChromeTraceExporter)
      → IsOpen before written e
      → (close e).0 ≡ some (document written)
  unfolding close document body
  close-document before [] e (text, held, h) = ground (arith, held, h.0, h.1)
  close-document before (x ∷ written) e (text, held, h) = ground (arith, held, h.0, h.1)

  -- A file that is opened, given events in batches of any size and closed holds the events of all
  -- batches in their order, but for metadata of a process or a track that was named before in that
  -- file, whatever the exporter wrote before it was opened.
  pub close-firsts :
      (batches : List (List (TraceEvent F))) (e : ChromeTraceExporter)
      → (close (add_batches batches (open_file e))).0 ≡ some (document (firsts [] (flat batches)))
  unfolding open_file body has_pid has_track
  close-firsts batches e =
      let start : IsOpen [] [] (open_file e) =
        ([], refl, (refl, refl, record { pids = λ p. refl; tids = λ t. refl })) in
      let (before, all) = add_batches-IsOpen batches [] [] (open_file e) start in
      close-document before (firsts [] (flat batches)) (add_batches batches (open_file e)) all
