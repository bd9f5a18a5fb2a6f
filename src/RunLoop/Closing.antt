-- ===== src/RunLoop/Closing.antt =====
-- The run loop leaves no process started.
use gc_scope.Base.{
  ℕ, ◌≡◌, refl, sym, ap, ◌∙◌, Bool, true, false, not, ◌||◌, some, List, [], ◌∷◌, ◌==◌, ==_iff,
  unwrap_or, All, All-imp, List-cases, arith, Bool-cases, inl, inr,
}
use mathlib.Core.Path.{subst}
use gc_scope.Base.Eq.{nat_eq}
use gc_scope.Base.Float.{Float64}
use gc_scope.Base.Map.{lookup, insert}
use gc_scope.Context.{
  MonitorContext, new_context, poll, mark_died, drop_process, contains, remove_pid,
}
use gc_scope.Context.Lifecycle.{
  contains-remove_pid, known, Agrees, poll-Agrees, note_death-Agrees, drop_process-Agrees,
}
use gc_scope.RunLoop.Pids.{
  ==_comm, Distinct, Distinct-remove_pid, add_new-Distinct, add_new-contains, contains-All,
}
use gc_scope.RunLoop.Adds.{poll-Adds, mark_died-alive}
use gc_scope.RunLoop.{
  WaitPolicy, Round, Monitoring, discover, vanish_one, vanish, refresh, give_up, poll_one,
  poll_each, rounds_of, mark_all, run_loop,
}

-- Every process that the context holds alive is one of the list.
abbrev pub Holds : {F : Type 0} → MonitorContext F → List ℕ → Type 0
Holds c ps = (p : ℕ) → contains p c.alive_pids ≡ true → contains p ps ≡ true

mark_died-Agrees :
    {F : Type 0} (p q : ℕ) (c : MonitorContext F) → Agrees p c → Agrees p (mark_died q c)
unfolding mark_died
mark_died-Agrees p q c h = note_death-Agrees p q (drop_process q c) (drop_process-Agrees p q c h)

-- A process is taken from the context and from the list.
mark_died-Holds :
    {F : Type 0} (q : ℕ) (c : MonitorContext F) (ps : List ℕ)
    → Holds c ps
    → Holds (mark_died q c) (remove_pid q ps)
mark_died-Holds q c ps h p at =
    let was = mark_died-alive q p c in
    let held = h p (ground (arith, at, was)) in
    ground (arith, at, was, held, contains-remove_pid q p ps)

-- What is not in the rest of a list is none of its elements.
apart : (q : ℕ) (ps : List ℕ) → contains q ps ≡ false → All (λ p. (q == p) ≡ false) ps
unfolding contains
apart q [] h = tt
apart q (p ∷ ps) h = (ground (arith, h, ==_comm p q), apart q ps (ground (arith, h)))

All-both :
    {A : Type 0} (Q R : A → Type 0) (xs : List A) → All Q xs → All R xs → All (λ x. Q x × R x) xs
All-both Q R [] h k = tt
All-both Q R (x ∷ xs) h k = ((h.0, k.0), All-both Q R xs h.1 k.1)

module _ {F P : Type 0} where
  -- What holds between the steps of a round.
  pub record IsSound (s : Monitoring F P) : Type 0 where
    pub distinct : Distinct s.alive_pids
    pub held : Holds s.context s.alive_pids
    pub agrees : (p : ℕ) → Agrees p s.context

  give_up-IsSound : (q : ℕ) (s : Monitoring F P) → IsSound s → IsSound (give_up q s)
  unfolding give_up
  give_up-IsSound q s h = record {
    distinct = Distinct-remove_pid q s.alive_pids h.distinct;
    held = mark_died-Holds q s.context s.alive_pids h.held;
    agrees = λ p. mark_died-Agrees p q s.context (h.agrees p);
  }

  vanish_one-IsSound :
      (current : List ℕ) (q : ℕ) (s : Monitoring F P) → IsSound s → IsSound (vanish_one current q s)
  unfolding vanish_one
  vanish_one-IsSound current q s h = elim (Bool-cases (contains q current)) [
    | inl here ↦ rw here h
    | inr gone ↦ rw gone (record {
      distinct = Distinct-remove_pid q s.alive_pids h.distinct;
      held = mark_died-Holds q s.context s.alive_pids h.held;
      agrees = λ p. mark_died-Agrees p q s.context (h.agrees p);
    })
  ]

  vanish-IsSound :
      (current ps : List ℕ) (s : Monitoring F P) → IsSound s → IsSound (vanish current ps s)
  unfolding vanish
  vanish-IsSound current [] s h = h
  vanish-IsSound current (q ∷ ps) s h =
      vanish-IsSound current ps (vanish_one current q s) (vanish_one-IsSound current q s h)

  refresh-IsSound : (r : Round) (s : Monitoring F P) → IsSound s → IsSound (refresh r s)
  unfolding refresh
  refresh-IsSound r s h =
      let current = discover r.children s.alive_pids [] in
      let s' = vanish current (r.in_order s.seen_pids) s in
      let h' = vanish-IsSound current (r.in_order s.seen_pids) s h in
      record {
        distinct = add_new-Distinct (r.in_order current) s'.alive_pids h'.distinct;
        held = λ p at. add_new-contains p (r.in_order current) s'.alive_pids (h'.held p at);
        agrees = h'.agrees;
      }

module _ {F P : Type 0} ⦃f : Float64 F⦄ (policy : WaitPolicy P) (factory : ℕ → P) where
  -- What polling a live process leaves: the others that are live stay so.
  abbrev Polled : ℕ → Monitoring F P → Monitoring F P → Type 0
  Polled q s s' =
      IsSound s'
      × ((p : ℕ)
          → (q == p) ≡ false
          → contains p s.alive_pids ≡ true
          → contains p s'.alive_pids ≡ true)

  poll_one-Polled :
      (r : Round) (q : ℕ) (s : Monitoring F P)
      → contains q s.alive_pids ≡ true
      → IsSound s
      → Polled q s ((poll_one policy factory r q s).0)
  unfolding poll_one give_up
  poll_one-Polled r q s at h =
      let result = poll (r.tick q) q s.context in
      let before = unwrap_or (lookup q s.pid_policies) (factory (r.made_at q)) in
      let answer = policy.wait (r.asked_at q) result.1 before in
      let s' : Monitoring F P = record s {
        context = result.0;
        pid_policies = insert q answer.0 s.pid_policies;
      } in
      let sound : IsSound s' = record {
        distinct = h.distinct;
        held = λ p live. elim (poll-Adds (r.tick q) q s.context p live) [
          | inl same ↦ ap (λ x. contains x s.alive_pids) (sym ((==_iff q p).0 same)) ∙ at
          | inr was ↦ h.held p was
        ];
        agrees = λ p. poll-Agrees (r.tick q) p q s.context (h.agrees p);
      } in
      elim (Bool-cases answer.1) [
        | inl stays ↦
            let is : s' ≡ (poll_one policy factory r q s).0 = ground (arith, stays) in
            subst (Polled q s) is (sound, λ p other live. live)
        | inr leaves ↦
            let is : give_up q s' ≡ (poll_one policy factory r q s).0 = ground (arith, leaves) in
            subst (Polled q s) is (
              give_up-IsSound q s' sound,
              λ p other live. ground (arith, other, live, contains-remove_pid q p s.alive_pids),
            )
      ]

  poll_each-IsSound :
      (r : Round) (ps : List ℕ) (any_alive : Bool) (s : Monitoring F P)
      → Distinct ps
      → All (λ p. contains p s.alive_pids ≡ true) ps
      → IsSound s
      → IsSound ((poll_each policy factory r ps any_alive s).0)
  unfolding poll_each
  poll_each-IsSound r [] any_alive s d at h = h
  poll_each-IsSound r (q ∷ ps) any_alive s d at h =
      let one = poll_one policy factory r q s in
      let (sound, kept) = poll_one-Polled r q s at.0 h in
      poll_each-IsSound r ps (any_alive || one.1) one.0 d.1
        (All-imp _ _ ps (λ p (live, other). kept p other live)
          (All-both _ _ ps at.1 (apart q ps d.0)))
        sound

  rounds_of-IsSound :
      (rounds : List Round) (s : Monitoring F P)
      → IsSound s
      → IsSound (rounds_of policy factory rounds s)
  unfolding rounds_of
  rounds_of-IsSound [] s h = h
  rounds_of-IsSound (r ∷ rounds) s h =
      let s1 = refresh r s in
      let h1 = refresh-IsSound r s h in
      let polled = poll_each policy factory r s1.alive_pids false s1 in
      let h2 =
        poll_each-IsSound r s1.alive_pids false s1 h1.distinct
          (contains-All s1.alive_pids s1.alive_pids (λ x at. at)) h1 in
      elim (List-cases s1.alive_pids) [
        | inl empty ↦
            let is : s1 ≡ rounds_of policy factory (r ∷ rounds) s = ground (arith, empty) in
            subst IsSound is h1
        | inr (p, ps, more) ↦ elim (Bool-cases (not polled.1 || not r.goes_on)) [
          | inl over ↦
              let is : polled.0 ≡ rounds_of policy factory (r ∷ rounds) s =
                ground (arith, more, over) in
              subst IsSound is h2
          | inr on ↦
              let is : rounds_of policy factory rounds polled.0
                  ≡ rounds_of policy factory (r ∷ rounds) s =
                ground (arith, more, on) in
              subst IsSound is (rounds_of-IsSound rounds polled.0 h2)
        ]
      ]

mark_all-closes :
    {F : Type 0} (ps : List ℕ) (c : MonitorContext F)
    → Holds c ps
    → ((p : ℕ) → Agrees p c)
    → (p : ℕ) → known p ((mark_all ps c).told) ≡ some false
unfolding mark_all
mark_all-closes [] c held agrees p = elim (Bool-cases (contains p c.alive_pids)) [
  | inl live ↦ absurd (ground (arith, held p live))
  | inr gone ↦ agrees p ∙ ap some gone
]
mark_all-closes (q ∷ ps) c held agrees p =
    mark_all-closes ps (mark_died q c)
      (λ x at.
        let was = mark_died-alive q x c in
        ground (arith, at, was, held x (ground (arith, at, was))))
      (λ x. mark_died-Agrees x q c (agrees x)) p

module _ (F : Type 0) {P : Type 0} ⦃f : Float64 F⦄ (policy : WaitPolicy P) (factory : ℕ → P) where
  -- Whatever the processes answer in a run of any rounds, and whichever policy decides on them, the
  -- exporter is told of each process in turn that it started and that it died, and at the end of the
  -- run each process that it was told has started it was told has died.
  pub run_loop_closes :
      (main_pid : ℕ) (rounds : List Round) (p : ℕ)
      → known p ((run_loop policy factory main_pid rounds (new_context {F = F})).told) ≡ some false
  unfolding run_loop known contains
  run_loop_closes main_pid rounds p =
      let s : Monitoring F P = record {
        context = new_context;
        alive_pids = main_pid ∷ [];
        pid_policies = [];
        seen_pids = [];
      } in
      let start : IsSound s = record {
        distinct = (refl, tt);
        held = λ x at. absurd (ground (arith, at));
        agrees = λ x. refl;
      } in
      let s' = rounds_of policy factory rounds s in
      let h = rounds_of-IsSound policy factory rounds s start in
      mark_all-closes s'.alive_pids s'.context h.held h.agrees p
