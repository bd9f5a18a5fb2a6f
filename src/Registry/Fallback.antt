-- ===== src/Registry/Fallback.antt =====
-- The fallback goes from a released build to the closest released layout of its line, and refuses
-- every pre-release.
use gc_scope.Base.{
  ℕ, ◌≡◌, refl, sym, ap, true, false, ◌⊎◌, inl, inr, Option, none, some, List, [], ◌∷◌, ◌==◌,
  ==_iff, if◌then◌else◌, arith, All, keep, keep-All, Bool-cases, &&_iff,
}
use mathlib.Core.Path.{subst}
use gc_scope.Registry.{
  layouts, registered, release_level, major_minor, release_level_final, closer, closest_of, closest,
  stands_in, resolve_fallback_layout,
}

closer_irrefl : (stored a : ℕ) → closer stored a a ≡ false
unfolding closer
closer_irrefl stored a = ground arith

closer_trans :
    (stored a b c : ℕ)
    → closer stored a b ≡ false
    → closer stored b c ≡ false
    → closer stored a c ≡ false
unfolding closer
closer_trans stored a b c h k = ground arith

closer_asym : (stored a b : ℕ) → closer stored a b ≡ true → closer stored b a ≡ false
unfolding closer
closer_asym stored a b h = ground arith

-- A property that the first and all others have is had by the closest.
closest_of-All {ℓ} :
    (P : ℕ → Type ℓ) (stored best : ℕ) (hs : List ℕ)
    → P best
    → All P hs
    → P (closest_of stored best hs)
unfolding closest_of
closest_of-All P stored best [] p h = p
closest_of-All P stored best (x ∷ hs) p h = elim (Bool-cases (closer stored x best)) [
  | inl nearer ↦ rw nearer (closest_of-All P stored x hs h.0 h.1)
  | inr farther ↦ rw farther (closest_of-All P stored best hs p h.1)
]

-- None of the list is closer than `h`.
abbrev NoneCloser : ℕ → List ℕ → ℕ → Type 0
NoneCloser stored hs h = All (λ x. closer stored x h ≡ false) hs

closest_of-NoneCloser :
    (stored best : ℕ) (hs : List ℕ) → NoneCloser stored (best ∷ hs) (closest_of stored best hs)
unfolding closest_of
closest_of-NoneCloser stored best [] = (closer_irrefl stored best, tt)
closest_of-NoneCloser stored best (x ∷ hs) = elim (Bool-cases (closer stored x best)) [
  | inl nearer ↦
      let rest = closest_of-NoneCloser stored x hs in
      let far = closer_trans stored best x _ (closer_asym stored x best nearer) rest.0 in
      let step : closest_of stored x hs ≡ closest_of stored best (x ∷ hs) =
        ap (λ b. closest_of stored (if b then x else best) hs) (sym nearer) in
      subst (NoneCloser stored (best ∷ (x ∷ hs))) step (far, (rest.0, rest.1))
  | inr farther ↦
      let rest = closest_of-NoneCloser stored best hs in
      let far = closer_trans stored x best _ farther rest.0 in
      let step : closest_of stored best hs ≡ closest_of stored best (x ∷ hs) =
        ap (λ b. closest_of stored (if b then x else best) hs) (sym farther) in
      subst (NoneCloser stored (best ∷ (x ∷ hs))) step (rest.0, (far, rest.1))
]

-- `h` is the layout that a released build of version `stored` falls back to.
pub record IsFallback (stored h : ℕ) : Type 0 where
  pub released : release_level stored ≡ 0xF
  pub in_registry : registered h ≡ true
  pub same_line : major_minor h ≡ major_minor stored
  pub layout_released : release_level h ≡ 0xF
  pub none_closer : All (λ x. closer stored x h ≡ false) (keep (stands_in stored) layouts)

-- A fallback, or why there is none: a pre-release, or a line with no released layout.
abbrev pub Fallback : ℕ → Option ℕ → Type 0
Fallback stored none =
    ((release_level stored == 0xF) ≡ false) ⊎ (keep (stands_in stored) layouts ≡ [])
Fallback stored (some h) = IsFallback stored h

layouts-registered : All (λ h. registered h ≡ true) layouts
layouts-registered = (refl, (refl, (refl, (refl, (refl, tt)))))

closest-Fallback :
    (stored : ℕ) (hs : List ℕ)
    → release_level stored ≡ 0xF
    → hs ≡ keep (stands_in stored) layouts
    → All (λ h. (registered h ≡ true) × (stands_in stored h ≡ true)) hs
    → Fallback stored (closest stored hs)
unfolding closest stands_in
closest-Fallback stored [] released is h = inr (sym is)
closest-Fallback stored (x ∷ hs) released is h =
    let best = closest_of-All _ stored x hs h.0 h.1 in
    let far = closest_of-NoneCloser stored x hs in
    let both = (&&_iff _ _).0 best.1 in
    record {
      released = released;
      in_registry = best.0;
      same_line = (==_iff _ _).0 both.0;
      layout_released = (==_iff _ _).0 both.1;
      none_closer = subst (λ l. NoneCloser stored l (closest_of stored x hs)) is far;
    }

pub resolve_fallback_layout_cases : (stored : ℕ) → Fallback stored (resolve_fallback_layout stored)
unfolding resolve_fallback_layout
resolve_fallback_layout_cases stored =
    elim (Bool-cases (release_level stored == release_level_final)) [
      | inr pre ↦ rw pre (inl pre)
      | inl final ↦ rw final (
          closest-Fallback stored (keep (stands_in stored) layouts) ((==_iff _ _).0 final) refl
            (keep-All (stands_in stored) _ layouts layouts-registered))
    ]
