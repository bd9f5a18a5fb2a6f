-- ===== src/Process/Modules.antt =====
-- The modules that `find_python_modules` finds, the section of an image, and the cookie.
use gc_scope.Base.{
  ℕ, Bool, not, ◌||◌, ◌&&◌, any, str_eq, ◌==◌, ◌⊎◌, All, All-imp, Bool-cases, ◌≡◌, refl, ap, ◌∙◌,
  true, false, Option, some, List, [], ◌∷◌, String, Option-cases, inl, inr, arith,
}
use mathlib.Core.Path.{subst}
use gc_scope.Memory.{Machine, MapRange}
use gc_scope.Process.{
  Images, BinaryKind, elf, pe, mach_o, classify_image, bytes_eq, names_python, modules_from,
  section_of,
}
use mathlib.Core.List.{Memᴰ}

-- A module is loaded where a mapping of its file starts. Its path names Python, and on macOS the
-- mapping is executable.
pub record IsMapped (macos : Bool) (maps : List MapRange) (path : String) (base : ℕ) : Type 0 where
  pub range : MapRange
  pub among : Memᴰ range maps
  pub of_file : range.filename ≡ some path
  pub at_start : range.start ≡ base
  pub of_python : names_python path ≡ true
  pub executable : (macos ≡ false) ⊎ (range.is_exec ≡ true)

pub IsMapped-tail :
    (macos : Bool) (r : MapRange) (maps : List MapRange) (path : String) (base : ℕ)
    → IsMapped macos maps path base
    → IsMapped macos (r ∷ maps) path base
IsMapped-tail macos r maps path base h = record {
  range = h.range;
  among = Memᴰ.tail h.among;
  of_file = h.of_file;
  at_start = h.at_start;
  of_python = h.of_python;
  executable = h.executable;
}

-- The modules of a process are loaded there.
pub modules_from-IsMapped :
    (macos : Bool) (found : List (String × ℕ)) (maps : List MapRange)
    → All (λ (e : String × ℕ). IsMapped macos maps e.0 e.1) (modules_from macos found maps)
unfolding modules_from
modules_from-IsMapped macos found [] = tt
modules_from-IsMapped macos found (r ∷ rs) =
    let Loaded : List MapRange → String × ℕ → Type 0 = λ maps e. IsMapped macos maps e.0 e.1 in
    let later : (found : List (String × ℕ)) → All (Loaded (r ∷ rs)) (modules_from macos found rs) =
      λ found.
        All-imp (Loaded rs) (Loaded (r ∷ rs)) (modules_from macos found rs)
          (λ e. IsMapped-tail macos r rs e.0 e.1) (modules_from-IsMapped macos found rs) in
    elim (Option-cases r.filename) [
      | inl unnamed ↦
          let is : modules_from macos found rs ≡ modules_from macos found (r ∷ rs) =
            ground (arith, unnamed) in
          subst (All (Loaded (r ∷ rs))) is (later found)
      | inr (path, named) ↦
          let skips =
            not (names_python path)
            || macos && not r.is_exec
            || any (λ (f : String × ℕ). str_eq f.0 path) found in
          elim (Bool-cases skips) [
            | inl skip ↦
                let is : modules_from macos found rs ≡ modules_from macos found (r ∷ rs) =
                  ground (arith, named, skip) in
                subst (All (Loaded (r ∷ rs))) is (later found)
            | inr take ↦
                let is : (path, r.start) ∷ modules_from macos ((path, r.start) ∷ found) rs
                    ≡ modules_from macos found (r ∷ rs) =
                  ground (arith, named, take) in
                subst (All (Loaded (r ∷ rs))) is (
                  record {
                    range = r;
                    among = Memᴰ.head refl;
                    of_file = named;
                    at_start = refl;
                    of_python = ground (arith, take);
                    executable = elim (Bool-cases macos) [
                      | inr other ↦ inl other
                      | inl mac ↦ inr (ground (arith, take, mac))
                    ];
                  },
                  later ((path, r.start) ∷ found),
                )
          ]
    ]

-- What goblin finds in an image of a format.
abbrev pub section_in : Images → BinaryKind → List ℕ → ℕ → Option ℕ
section_in i elf bytes base = i.find_section_in_elf bytes base
section_in i pe bytes base = i.find_section_in_pe bytes base
section_in i mach_o bytes base = i.find_section_in_macho bytes base

pub section_of-kind :
    {H : Type 0} (m : Machine H) (i : Images) (bytes : List ℕ) (base addr : ℕ)
    → section_of m i bytes base ≡ some addr
    → (kind : BinaryKind) × (classify_image bytes ≡ some kind)
      × (section_in i kind bytes base ≡ some addr)
unfolding section_of
section_of-kind m i bytes base addr h = elim (Option-cases (classify_image bytes)) [
  | inl unknown ↦ absurd (ground (arith, h, unknown))
  | inr (elf, is) ↦ (elf, is, ground (arith, h, is))
  | inr (pe, is) ↦ (pe, is, ground (arith, h, is))
  | inr (mach_o, is) ↦ (mach_o, is, ground (arith, h, is))
]

pub bytes_eq-eq : (a b : List ℕ) → bytes_eq a b ≡ true → a ≡ b
unfolding bytes_eq
bytes_eq-eq [] [] h = refl
bytes_eq-eq [] (b ∷ bs) h = absurd (cc h)
bytes_eq-eq (a ∷ as') [] h = absurd (cc h)
bytes_eq-eq (a ∷ as') (b ∷ bs) h = elim (Bool-cases (a == b)) [
  | inr other ↦ absurd (ground (arith, h, other))
  | inl same ↦
      let rest = bytes_eq-eq as' bs (ground (arith, h, same)) in
      let head : a ≡ b = ground (arith, same) in ap (λ x. x ∷ as') head ∙ ap (λ xs. b ∷ xs) rest
]
