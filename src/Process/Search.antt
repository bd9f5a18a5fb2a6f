-- ===== src/Process/Search.antt =====
-- What the search for a runtime by its cookie finds, and where it looks.
use gc_scope.Base.{
  ℕ, All, length, zero, suc, ◌≡◌, refl, sym, ap, ◌∙◌, List-cases, true, false, Option, some, List,
  [], ◌∷◌, String, ◌>>=◌, bind-some, Option-cases, inl, inr, arith,
}
use mathlib.Core.Path.{subst}
use gc_scope.Memory.{Machine, MapRange, read_memory}
use gc_scope.Process.{
  Images, BinaryKind, classify_image, cookie, modules_from, validate_cookie, section_of,
  try_modules, try_find_runtime, search_children, search_levels, search_pid_and_children,
  get_child_pids, find_python_modules, max_depth,
}
use mathlib.Core.List.{Memᴰ}
use gc_scope.Process.Modules.{
  IsMapped, modules_from-IsMapped, section_in, section_of-kind, bytes_eq-eq,
}

some_injective : {A : Type 0} {a b : A} → some a ≡ some b → a ≡ b
some_injective h = cc h

module _ {H : Type 0} (m : Machine H) (i : Images) where
  -- A runtime of a process: the section of an image of a module that a mapping of that process
  -- loads, found in the image's format from the module's base. The process has the cookie there.
  pub record IsRuntime (pid addr : ℕ) (path : String) : Type 0 where
    pub maps : List MapRange
    pub bytes : List ℕ
    pub base : ℕ
    pub kind : BinaryKind
    pub mappings : m.process_maps pid ≡ some maps
    pub loaded : IsMapped i.macos maps path base
    pub image : m.read_file path ≡ some bytes
    pub format : classify_image bytes ≡ some kind
    pub section : section_in i kind bytes base ≡ some addr
    pub holds_cookie : read_memory m pid addr 8 ≡ some cookie

  validate_cookie-holds :
      (pid addr : ℕ)
      → validate_cookie m pid addr ≡ some true
      → read_memory m pid addr 8 ≡ some cookie
  unfolding validate_cookie
  validate_cookie-holds pid addr h = elim (Option-cases (read_memory m pid addr (length cookie))) [
    | inl unread ↦ absurd (ground (arith, h, unread))
    | inr (bytes, read) ↦ read ∙ ap some (bytes_eq-eq bytes cookie (ground (arith, h, read)))
  ]

  -- `q` is a process, or a child of a process, that is at most so many levels below `p`.
  pub data Below : ℕ → ℕ → ℕ → Type 0 where
    here : {n p : ℕ} → Below n p p
    child : {n p c q : ℕ} → Memᴰ c (get_child_pids m p) → Below n c q → Below (suc n) p q

  try_modules-IsRuntime :
      (pid : ℕ) (maps : List MapRange) (modules : List (String × ℕ)) (r : ℕ × String)
      → m.process_maps pid ≡ some maps
      → All (λ (e : String × ℕ). IsMapped i.macos maps e.0 e.1) modules
      → try_modules m i pid modules ≡ some r
      → IsRuntime pid r.0 r.1
  unfolding try_modules
  try_modules-IsRuntime pid maps [] r of_pid ok h = absurd (ground arith)
  try_modules-IsRuntime pid maps ((path, base) ∷ modules) r of_pid ok h =
      elim (Option-cases (m.read_file path >>= λ bytes. section_of m i bytes base)) [
        | inl nothing ↦
            try_modules-IsRuntime pid maps modules r of_pid ok.1 (ground (arith, h, nothing))
        | inr (addr, found) ↦ elim (Option-cases (validate_cookie m pid addr)) [
          | inl unread ↦ absurd (ground (arith, h, found, unread))
          | inr (true, valid) ↦
              let (bytes, image, section) =
                bind-some (m.read_file path) (λ bytes. section_of m i bytes base) addr found in
              let (kind, format, at) = section_of-kind m i bytes base addr section in
              let is : (addr, path) ≡ r = ground (arith, h, found, valid) in
              subst (λ (x : ℕ × String). IsRuntime pid x.0 x.1) is
                (record {
                  maps = maps;
                  bytes = bytes;
                  base = base;
                  kind = kind;
                  mappings = of_pid;
                  loaded = ok.0;
                  image = image;
                  format = format;
                  section = at;
                  holds_cookie = validate_cookie-holds pid addr valid;
                })
          | inr (false, invalid) ↦
              try_modules-IsRuntime pid maps modules r of_pid ok.1
                (ground (arith, h, found, invalid))
        ]
      ]

  try_find_runtime-IsRuntime :
      (pid : ℕ) (r : ℕ × String) → try_find_runtime m i pid ≡ some r → IsRuntime pid r.0 r.1
  unfolding try_find_runtime find_python_modules
  try_find_runtime-IsRuntime pid r h =
      let (modules, of_pid, found) =
        bind-some (find_python_modules m i.macos pid) (try_modules m i pid) r h in
      let (maps, mappings, is) =
        bind-some (m.process_maps pid) (λ maps. some (modules_from i.macos [] maps)) modules
          of_pid in
      try_modules-IsRuntime pid maps modules r mappings
        (subst (All (λ (e : String × ℕ). IsMapped i.macos maps e.0 e.1)) (some_injective is)
          (modules_from-IsMapped i.macos [] maps))
        found

search_children-some :
    (attempt : ℕ → Option (ℕ × String)) (cs : List ℕ) (r : ℕ × String)
    → search_children attempt cs ≡ some r
    → (c : ℕ) × Memᴰ c cs × (attempt c ≡ some r)
unfolding search_children
search_children-some attempt [] r h = absurd (ground arith)
search_children-some attempt (c ∷ cs) r h = elim (Option-cases (attempt c)) [
  | inl fails ↦
      let (d, mem, found) = search_children-some attempt cs r (ground (arith, h, fails)) in
      (d, Memᴰ.tail mem, found)
  | inr (s, found) ↦ (c, Memᴰ.head refl, ground (arith, h, found))
]

module _ {H : Type 0} (m : Machine H) (i : Images) where
  -- The runtime `r` was found in a process at most `n` levels below `pid`.
  abbrev pub FoundBelow : ℕ → ℕ → ℕ × String → Type 0
  FoundBelow n pid r = (q : ℕ) × Below m i n pid q × IsRuntime m i q r.0 r.1

  search_levels-FoundBelow :
      (n pid : ℕ) (r : ℕ × String) → search_levels m i n pid ≡ some r → FoundBelow n pid r
  unfolding search_levels
  search_levels-FoundBelow zero pid r h = (pid, here, try_find_runtime-IsRuntime m i pid r h)
  search_levels-FoundBelow (suc n) pid r h = elim (Option-cases (try_find_runtime m i pid)) [
    | inr (s, found) ↦
        let is : s ≡ r = ground (arith, h, found) in
        (pid, here, try_find_runtime-IsRuntime m i pid r (found ∙ ap some is))
    | inl fails ↦ elim (List-cases (get_child_pids m pid)) [
      | inl empty ↦ absurd (ground (arith, h, fails, empty))
      | inr (c, cs, children) ↦
          let found : search_children (search_levels m i n) (c ∷ cs) ≡ some r =
            ground (arith, h, fails, children) in
          let (d, mem, below) = search_children-some (search_levels m i n) (c ∷ cs) r found in
          let (q, path, runtime) = search_levels-FoundBelow n d r below in
          (q, child (subst (Memᴰ d) (sym children) mem) path, runtime)
    ]
  ]

  -- The runtime that a search finds is of the process or of a descendant at most three levels below
  -- it. A mapping of that very process loads the image, whose path names Python, the section is the
  -- one found in the image from where the mapping starts, and that process has the cookie there.
  pub search_pid_and_children-FoundBelow :
      (pid : ℕ) (r : ℕ × String)
      → search_pid_and_children m i pid ≡ some r
      → FoundBelow max_depth pid r
  unfolding search_pid_and_children
  search_pid_and_children-FoundBelow pid r h = search_levels-FoundBelow max_depth pid r h
