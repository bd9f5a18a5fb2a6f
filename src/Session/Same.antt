-- ===== src/Session/Same.antt =====
-- What `classify_cmdline` and the comparison of the keys tell.
use gc_scope.Base.{
  ◌≡◌, refl, ap, true, false, Option, none, some, String, str_eq, eq_iff, ◌⊎◌, inl, inr, Bool-cases,
}
use gc_scope.Session.Defs.{
  ExeKey, exe_beq_iff, CmdlineCheck, gone, differs, inconclusive, classify_cmdline, same_key,
}

pub same_key-eq : (a b : Option ExeKey) → same_key a b ≡ true → a ≡ b
unfolding same_key
same_key-eq none none h = refl
same_key-eq none (some b) h = absurd (cc h)
same_key-eq (some a) none h = absurd (cc h)
same_key-eq (some a) (some b) h = ap some ((exe_beq_iff a b).0 h)

pub same_key-ne : (a b : Option ExeKey) → same_key a b ≡ false → ¬ (a ≡ b)
unfolding same_key
same_key-ne none none h e = absurd (cc h)
same_key-ne none (some b) h e = absurd (cc e)
same_key-ne (some a) none h e = absurd (cc e)
same_key-ne (some a) (some b) h e =
    let same : a ≡ b = cc e in let yes = (exe_beq_iff a b).1 same in absurd (cc (h, yes))

-- Both command lines are known, neither is empty, and they differ.
abbrev pub IsOtherLine : Option String → Option String → Type 0
IsOtherLine old new =
    (a : String) × (b : String) × (old ≡ some a)
    × (new ≡ some b)
    × (¬ (a ≡ ""))
    × (¬ (b ≡ ""))
    × (¬ (a ≡ b))

-- There is a command line, and it is not known to have been another: the old one is unknown, one
-- of them is empty, or they are the same.
abbrev pub IsNoOtherLine : Option String → Option String → Type 0
IsNoOtherLine old new =
    (b : String) × (new ≡ some b)
    × ((old ≡ none) ⊎ ((a : String) × (old ≡ some a) × ((a ≡ "") ⊎ (b ≡ "") ⊎ (a ≡ b))))

-- What a check of a command line tells.
abbrev pub Told : Option String → Option String → CmdlineCheck → Type 0
Told old new gone = new ≡ none
Told old new differs = IsOtherLine old new
Told old new inconclusive = IsNoOtherLine old new

str_ne : (a b : String) → str_eq a b ≡ false → ¬ (a ≡ b)
str_ne a b h e = let yes = (eq_iff a b).1 e in absurd (cc (h, yes))

pub classify_cmdline-Told : (old new : Option String) → Told old new (classify_cmdline old new)
unfolding classify_cmdline
classify_cmdline-Told old none = refl
classify_cmdline-Told none (some b) = (b, refl, inl refl)
classify_cmdline-Told (some a) (some b) = elim (Bool-cases (str_eq a "")) [
  | inl no_old ↦ rw no_old (b, refl, inr (a, refl, inl ((eq_iff a "").0 no_old)))
  | inr old ↦ elim (Bool-cases (str_eq b "")) [
    | inl no_new ↦ rw (old, no_new) (b, refl, inr (a, refl, inr (inl ((eq_iff b "").0 no_new))))
    | inr new ↦ elim (Bool-cases (str_eq a b)) [
      | inl same ↦ rw (old, new, same) (b, refl, inr (a, refl, inr (inr ((eq_iff a b).0 same))))
      | inr other ↦
          rw (old, new, other)
            (a, b, refl, refl, str_ne a "" old, str_ne b "" new, str_ne a b other)
    ]
  ]
]
