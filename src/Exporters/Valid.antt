-- ===== src/Exporters/Valid.antt =====
-- A trace file is JSON.
use gc_scope.Base.{ℕ, ◌≡◌, sym, true, false, some, List, [], ◌∷◌, ◌++◌, All, Bool-cases, inl, inr}
use mathlib.Core.List.{append_assoc}
use mathlib.Core.Path.{subst}
use gc_scope.Base.Float.{Float64}
use gc_scope.Convert.{TraceEvent}
use gc_scope.Exporters.{ChromeTraceExporter, encode, write_event, open_file, close}
use gc_scope.Exporters.Json.{
  IsJson, Reads, elements, empty_array, array, line_before, line_after, element, more_elements,
  is_number,
}
use gc_scope.Exporters.Events.{IsPlainEvent, encode-Reads}
use gc_scope.Exporters.Metadata.{repeats, firsts}
use gc_scope.Exporters.Stream.{body, document, flat, add_batches, close-firsts}

module _ {F : Type 0} ⦃f : Float64 F⦄ (display : F → List ℕ)
    (displays : (x : F) → f.is_finite x ≡ true → is_number (display x) ≡ true) where
  firsts-All :
      (before events : List (TraceEvent F))
      → All IsPlainEvent events
      → All IsPlainEvent (firsts before events)
  unfolding firsts
  firsts-All before [] h = tt
  firsts-All before (e ∷ events) h = elim (Bool-cases (repeats e before)) [
    | inl again ↦ rw again (firsts-All (e ∷ before) events h.1)
    | inr new ↦ rw new (h.0, firsts-All (e ∷ before) events h.1)
  ]

  -- The events of an array, up to its end.
  body-Reads :
      (e : TraceEvent F) (es : List (TraceEvent F))
      → IsPlainEvent e
      → All IsPlainEvent es
      → Reads elements
          (10 ∷ (encode display e ++ (body display false es ++ (10 ∷ 93 ∷ []))))
          (93 ∷ [])
  unfolding body write_event
  body-Reads e [] p h =
      element (line_before (line_after (encode-Reads display displays e (10 ∷ 93 ∷ []) p)))
  body-Reads e (x ∷ es) p h =
      let later = body display false es in
      let is = append_assoc (encode display x) later (10 ∷ 93 ∷ []) in
      subst (λ t. Reads elements (10 ∷ (encode display e ++ (b',' ∷ 10 ∷ t))) (93 ∷ [])) (sym is)
        (more_elements (line_before (encode-Reads display displays e _ p))
          (body-Reads x es h.0 h.1))

  document-IsJson : (es : List (TraceEvent F)) → All IsPlainEvent es → IsJson (document display es)
  unfolding document body write_event
  document-IsJson [] h = line_after empty_array
  document-IsJson (e ∷ es) h =
      let is = append_assoc (encode display e) (body display false es) (10 ∷ 93 ∷ []) in
      subst (λ t. IsJson (91 ∷ 10 ∷ t)) (sym is) (array (body-Reads e es h.0 h.1))

  -- The file that an exporter leaves when it is closed is one JSON document, where it is given
  -- events in batches of any size: processes fit 32 bits and numbers 64, names and keys need no
  -- escape, floats are finite, and a finite float is displayed as a number.
  pub close-IsJson :
      (batches : List (List (TraceEvent F))) (e : ChromeTraceExporter)
      → All IsPlainEvent (flat batches)
      → (text : List ℕ) × ((close (add_batches display batches (open_file e))).0 ≡ some text)
        × IsJson text
  close-IsJson batches e h =
      let events = firsts [] (flat batches) in
      (
        document display events,
        close-firsts display batches e,
        document-IsJson events (firsts-All [] (flat batches) h),
      )
