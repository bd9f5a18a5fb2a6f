-- ===== src/Exporters/Events.antt =====
-- Each event is encoded as a JSON object.
use gc_scope.Base.{ℕ, ◌^◌, ◌<◌, ◌≡◌, refl, sym, ap, ◌∙◌, true, List, [], ◌∷◌, ◌++◌, All, arith}
use mathlib.Core.List.{append_assoc}
use mathlib.Core.Path.{subst}
use gc_scope.Base.Int.{ℤ, pos, negsuc, InI64}
use gc_scope.Base.Text.{codes, decimal, decimal_int}
use gc_scope.Base.Float.{Float64}
use gc_scope.Convert.{
  ArgValue, int, float, Arg, TraceEvent, process_meta, thread_meta, begin_span, end_span, instant,
  counter,
}
use gc_scope.Exporters.{pieces, ts_us, format, display_value, arg_json, args_json, encode}
use gc_scope.Exporters.Json.{
  is_number, all_plain, Reads, value, members, number, text, empty_object, object, member,
  more_members, decimal-is_number, decimal_int-is_number,
}

-- The pieces of a `format!` before a text.
abbrev format_onto : List (List ℕ) → List ℕ → List ℕ
format_onto [] rest = rest
format_onto (p ∷ ps) rest = p ++ format_onto ps rest

format-onto : (ps : List (List ℕ)) (rest : List ℕ) → format_onto ps rest ≡ format ps ++ rest
unfolding format
format-onto [] rest = refl
format-onto (p ∷ ps) rest =
    ap (λ t. p ++ t) (format-onto ps rest) ∙ sym (append_assoc p (format ps) rest)

ts_us-InI64 : (z : ℤ) → InI64 z → InI64 (ts_us z)
unfolding ts_us
ts_us-InI64 (pos n) h = ground (arith, h)
ts_us-InI64 (negsuc n) h = ground (arith, h)

-- A process id fits 32 bits, a number 64, and a text needs no escape.
abbrev pub IsPid : ℕ → Type 0
IsPid pid = pid < 2 ^ 32

module _ {F : Type 0} ⦃f : Float64 F⦄ where
  -- The value of an argument that JSON can spell.
  abbrev pub IsSpelled : ArgValue F → Type 0
  IsSpelled (int v) = InI64 v
  IsSpelled (float x) = f.is_finite x ≡ true

  abbrev pub IsPlainArg : Arg F → Type 0
  IsPlainArg a = (all_plain (codes a.0) ≡ true) × IsSpelled a.1

  -- An event of a process and a track, whose names need no escape.
  abbrev pub IsPlainEvent : TraceEvent F → Type 0
  IsPlainEvent (process_meta pid name) = IsPid pid × (all_plain name ≡ true)
  IsPlainEvent (thread_meta pid tid name) = IsPid pid × InI64 tid × (all_plain name ≡ true)
  IsPlainEvent (begin_span pid tid ts_ns name cat args) =
      IsPid pid
      × InI64 tid
      × InI64 ts_ns
      × (all_plain name ≡ true)
      × (all_plain cat ≡ true)
      × All IsPlainArg args
  IsPlainEvent (end_span pid tid ts_ns name cat) =
      IsPid pid × InI64 tid × InI64 ts_ns × (all_plain name ≡ true) × (all_plain cat ≡ true)
  IsPlainEvent (instant pid ts_ns name) = IsPid pid × InI64 ts_ns × (all_plain name ≡ true)
  IsPlainEvent (counter pid tid ts_ns name args) =
      IsPid pid × InI64 tid × InI64 ts_ns × (all_plain name ≡ true) × All IsPlainArg args

  module _ (display : F → List ℕ)
      (displays : (x : F) → f.is_finite x ≡ true → is_number (display x) ≡ true) where
    value-Reads :
        (v : ArgValue F) (rest : List ℕ)
        → IsSpelled v
        → Reads value (display_value display v ++ rest) rest
    unfolding display_value
    value-Reads (int v) rest h = number (decimal_int v) (decimal_int-is_number v h)
    value-Reads (float x) rest h = number (display x) (displays x h)

    -- One argument, and the rest of the arguments behind it.
    arg-onto :
        (a : Arg F) (rest : List ℕ)
        → b'"' ∷ (codes a.0 ++ (b'"' ∷ b':' ∷ (display_value display a.1 ++ rest)))
          ≡ arg_json display a ++ rest
    unfolding arg_json
    arg-onto (key, v) rest =
        format-onto (codes "\"" ∷ codes key ∷ codes "\":" ∷ display_value display v ∷ []) rest

    args-members :
        (a : Arg F) (args : List (Arg F)) (rest : List ℕ)
        → IsPlainArg a
        → All IsPlainArg args
        → Reads members (args_json display (a ∷ args) ++ rest) rest
    unfolding args_json
    args-members a [] rest p h =
        subst (λ t. Reads members t rest) (arg-onto a rest)
          (member (codes a.0) p.0 (value-Reads a.1 rest p.1))
    args-members a (b ∷ args) rest p h =
        let later = args_json display (b ∷ args) in
        subst (λ t. Reads members t rest)
          (arg-onto a (b',' ∷ (later ++ rest))
            ∙ sym (append_assoc (arg_json display a) (b',' ∷ later) rest))
          (more_members (codes a.0) p.0 (value-Reads a.1 (b',' ∷ (later ++ rest)) p.1)
            (args-members b args rest h.0 h.1))

    args-Reads :
        (args : List (Arg F)) (rest : List ℕ)
        → All IsPlainArg args
        → Reads value (123 ∷ (args_json display args ++ (125 ∷ rest))) rest
    unfolding args_json
    args-Reads [] rest h = empty_object
    args-Reads (a ∷ args) rest h = object (args-members a args (125 ∷ rest) h.0 h.1)

    pid-Reads : (pid : ℕ) (rest : List ℕ) → IsPid pid → Reads value (decimal pid ++ rest) rest
    pid-Reads pid rest h = number (decimal pid) (decimal-is_number pid (omega (arith, h)))

    int-Reads : (z : ℤ) (rest : List ℕ) → InI64 z → Reads value (decimal_int z ++ rest) rest
    int-Reads z rest h = number (decimal_int z) (decimal_int-is_number z h)

    pieces-Reads :
        (e : TraceEvent F) (rest : List ℕ)
        → IsPlainEvent e
        → Reads value (format_onto (pieces display e) rest) rest
    unfolding pieces all_plain
    pieces-Reads (process_meta pid name) rest h = object (
        more_members (codes "ph") refl (text (codes "M") refl) (
          more_members (codes "pid") refl (pid-Reads pid _ h.0) (
            more_members (codes "name") refl (text (codes "process_name") refl)
              (member (codes "args") refl (object (member (codes "name") refl (text name h.1)))))))
    pieces-Reads (thread_meta pid tid name) rest h = object (
        more_members (codes "ph") refl (text (codes "M") refl) (
          more_members (codes "pid") refl (pid-Reads pid _ h.0) (
            more_members (codes "tid") refl (int-Reads tid _ h.1) (
              more_members (codes "name") refl (text (codes "thread_name") refl) (
                member (codes "args") refl
                  (object (member (codes "name") refl (text name h.2))))))))
    pieces-Reads (begin_span pid tid ts_ns name cat args) rest h = object (
        more_members (codes "ph") refl (text (codes "B") refl) (
          more_members (codes "pid") refl (pid-Reads pid _ h.0) (
            more_members (codes "tid") refl (int-Reads tid _ h.1) (
              more_members (codes "ts") refl (int-Reads (ts_us ts_ns) _ (ts_us-InI64 ts_ns h.2)) (
                more_members (codes "name") refl (text name h.3) (
                  more_members (codes "cat") refl (text cat h.4)
                    (member (codes "args") refl (args-Reads args (125 ∷ rest) h.5))))))))
    pieces-Reads (end_span pid tid ts_ns name cat) rest h = object (
        more_members (codes "ph") refl (text (codes "E") refl) (
          more_members (codes "pid") refl (pid-Reads pid _ h.0) (
            more_members (codes "tid") refl (int-Reads tid _ h.1) (
              more_members (codes "ts") refl (int-Reads (ts_us ts_ns) _ (ts_us-InI64 ts_ns h.2)) (
                more_members (codes "name") refl (text name h.3)
                  (member (codes "cat") refl (text cat h.4)))))))
    pieces-Reads (instant pid ts_ns name) rest h = object (
        more_members (codes "name") refl (text name h.2) (
          more_members (codes "ph") refl (text (codes "I") refl) (
            more_members (codes "s") refl (text (codes "p") refl) (
              more_members (codes "ts") refl (int-Reads (ts_us ts_ns) _ (ts_us-InI64 ts_ns h.1))
                (member (codes "pid") refl (pid-Reads pid _ h.0))))))
    pieces-Reads (counter pid tid ts_ns name args) rest h = object (
        more_members (codes "name") refl (text name h.3) (
          more_members (codes "ph") refl (text (codes "C") refl) (
            more_members (codes "ts") refl (int-Reads (ts_us ts_ns) _ (ts_us-InI64 ts_ns h.2)) (
              more_members (codes "pid") refl (pid-Reads pid _ h.0) (
                more_members (codes "tid") refl (int-Reads tid _ h.1)
                  (member (codes "args") refl (args-Reads args (125 ∷ rest) h.4)))))))

    -- An event is encoded as a JSON object.
    pub encode-Reads :
        (e : TraceEvent F) (rest : List ℕ)
        → IsPlainEvent e
        → Reads value (encode display e ++ rest) rest
    unfolding encode
    encode-Reads e rest h =
        subst (λ t. Reads value t rest) (format-onto (pieces display e) rest)
          (pieces-Reads e rest h)
