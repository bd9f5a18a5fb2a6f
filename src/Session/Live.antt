-- ===== src/Session/Live.antt =====
-- What `layout_still_valid` tells of the live version word.
use gc_scope.Base.{ℕ, ◌≡◌, ap, ◌∙◌, true, false, none, some, ◌⊎◌, inl, inr, Option-cases, arith}
use gc_scope.Base.Word.{add_u64}
use gc_scope.Memory.{Machine, read_u64_h}
use gc_scope.Session.Attach.{layout_still_valid}
use gc_scope.Session.Defs.{CachedLayout}

module _ {H : Type 0} (m : Machine H) (handle : H) (addr : ℕ) where
  -- The version word of a runtime is the one that a layout was made of, where it was made of one.
  abbrev pub IsLive : CachedLayout → Type 0
  IsLive e =
      (e.stored_hex ≡ none)
      ⊎ ((hex : ℕ) × (e.stored_hex ≡ some hex) × (read_u64_h m handle (add_u64 addr 8) ≡ some hex))

  -- It is another one.
  abbrev pub IsStale : CachedLayout → Type 0
  IsStale e =
      (hex : ℕ) × (live : ℕ) × (e.stored_hex ≡ some hex)
      × (read_u64_h m handle (add_u64 addr 8) ≡ some live)
      × (¬ (live ≡ hex))

  -- It cannot be read.
  abbrev pub IsUnread : CachedLayout → Type 0
  IsUnread e = (hex : ℕ) × (e.stored_hex ≡ some hex) × (read_u64_h m handle (add_u64 addr 8) ≡ none)

  pub layout_still_valid-IsLive :
      (e : CachedLayout) → layout_still_valid m handle addr e ≡ some true → IsLive e
  unfolding layout_still_valid
  layout_still_valid-IsLive e h = elim (Option-cases e.stored_hex) [
    | inl made_of_none ↦ inl made_of_none
    | inr (hex, made) ↦ elim (Option-cases (read_u64_h m handle (add_u64 addr 8))) [
      | inl unread ↦ absurd (ground (arith, h, made, unread))
      | inr (live, read) ↦
          let same : live ≡ hex = ground (arith, h, made, read) in
          inr (hex, made, read ∙ ap some same)
    ]
  ]

  pub layout_still_valid-IsStale :
      (e : CachedLayout) → layout_still_valid m handle addr e ≡ some false → IsStale e
  unfolding layout_still_valid
  layout_still_valid-IsStale e h = elim (Option-cases e.stored_hex) [
    | inl made_of_none ↦ absurd (ground (arith, h, made_of_none))
    | inr (hex, made) ↦ elim (Option-cases (read_u64_h m handle (add_u64 addr 8))) [
      | inl unread ↦ absurd (ground (arith, h, made, unread))
      | inr (live, read) ↦
          (hex, live, made, read, λ same. absurd (ground (arith, h, made, read, same)))
    ]
  ]

  pub layout_still_valid-IsUnread :
      (e : CachedLayout) → layout_still_valid m handle addr e ≡ none → IsUnread e
  unfolding layout_still_valid
  layout_still_valid-IsUnread e h = elim (Option-cases e.stored_hex) [
    | inl made_of_none ↦ absurd (ground (arith, h, made_of_none))
    | inr (hex, made) ↦ elim (Option-cases (read_u64_h m handle (add_u64 addr 8))) [
      | inl unread ↦ (hex, made, unread)
      | inr (live, read) ↦ absurd (ground (arith, h, made, read))
    ]
  ]
