-- ===== src/Kernel/Proposals/Backed.antt =====
-- What crates/exoskeleton-host/src/kernel/mod.rs may put in the place of the actions of a decision.
use exoskeleton.Threads.Registry.{executable_entry, list_executable}
use exoskeleton.Threads.Store.{filter_map, recent_exec_outputs, RegisteredThreadStatus, store_list}
use exoskeleton.Threads.Types.{ThreadSpec, ThreadRole, ExecThreadStatus}
use mathlib.Core.Path.{subst}
use exoskeleton.Base.{
  Bool-cases, filter, any, is_empty, Eq, string_eq, ==→eq, ℕ, ◌≡◌, refl, sym, ap, ◌∙◌, ◌⊎◌, inl,
  inr, Bool, true, not, Option, none, some, List, [], ◌∷◌, arith, Option-cases, All, All-imp,
  String, ◌≢◌, ◌==◌, nat_eq, false,
}
use mathlib.Core.List.{Mem, mem-cons_self, mem-cons_of_mem, head-eq_of_cons-eq, nil≢cons}
use exoskeleton.Threads.Executable.{
  ExecThreadOutput, ExecThreadProposal, ExecThreadProposalConfidence,
}
use exoskeleton.Threads.Registry.Summaries.{HostStore}
use exoskeleton.Kernel.Types.{PlannedAction, DecisionResult}
use exoskeleton.Kernel.Proposals.{
  is_ready, is_high, proposes_mutation, latest_coding_exec_thread_proposals,
  reconcile_exec_thread_proposals, with_proposal, with_only_ready, same_call, proposed_call,
  with_origin, is_code_action, is_one_of, is_coding_role, has_failed, may_propose, pop, tagged,
}

filter-head :
    {A : Type 0} (P : A → Type 0) (p : A → Bool) (x : A) (xs rest : List A)
    → All P xs
    → filter p xs ≡ x ∷ rest
    → P x × (p x ≡ true)
filter-head P p x [] rest all h = absurd (nil≢cons h)
filter-head P p x (y ∷ xs) rest all h = elim (Bool-cases (p y)) [
  | inl e ↦
      let cons : y ∷ filter p xs ≡ x ∷ rest = ground (arith, e, h) in
      let same : y ≡ x = head-eq_of_cons-eq cons in (subst P same all.0, rw⁻¹ same e)
  | inr e ↦ filter-head P p x xs rest all.1 (ground (arith, e, h))
]

All-Mem : {A : Type 0} (xs : List A) → All (λ x. Mem x xs) xs
All-Mem [] = tt
All-Mem (x ∷ xs) = (mem-cons_self, All-imp (λ y h. mem-cons_of_mem x h) xs (All-Mem xs))

filter_map-All :
    {A B : Type 0} (g : A → Option B) (Q : A → Type 0) (P : B → Type 0)
    → ((x : A) (y : B) → Q x → g x ≡ some y → P y)
    → (xs : List A) → All Q xs
    → All P (filter_map g xs)
filter_map-All g Q P step [] h = tt
filter_map-All g Q P step (x ∷ xs) h = elim (Option-cases (g x)) [
  | inl e ↦ rw (e, filter_map) (filter_map-All g Q P step xs h.1)
  | inr (y, e) ↦ rw (e, filter_map) (step x y h.0 e, filter_map-All g Q P step xs h.1)
]

All-filter_both :
    {A : Type 0} (P : A → Type 0) (p : A → Bool) (xs : List A)
    → All P xs
    → All (λ x. P x × (p x ≡ true)) (filter p xs)
All-filter_both P p [] h = tt
All-filter_both P p (x ∷ xs) h = elim (Bool-cases (p x)) [
  | inl e ↦ rw e ((h.0, e), All-filter_both P p xs h.1)
  | inr e ↦ rw e (All-filter_both P p xs h.1)
]

is_one_of-Mem : (names : List String) (name : String) → is_one_of names name ≡ true → Mem name names
is_one_of-Mem [] name h = absurd cc
is_one_of-Mem (n ∷ names) name h = elim (Bool-cases (n == name)) [
  | inl same ↦ rw (==→eq ⦃e = string_eq⦄ n name same) mem-cons_self
  | inr differ ↦ mem-cons_of_mem n (is_one_of-Mem names name (ground (arith, differ, h)))
]

coding_role : (role : ThreadRole) → is_coding_role role ≡ true → role ≡ ThreadRole.coding
coding_role ThreadRole.coding h = refl
coding_role ThreadRole.threat_monitor h = absurd cc
coding_role ThreadRole.self_critique h = absurd cc
coding_role ThreadRole.memory_consolidation h = absurd cc
coding_role ThreadRole.meta_cognition h = absurd cc
coding_role ThreadRole.creative_synthesis h = absurd cc
coding_role ThreadRole.initiative h = absurd cc
coding_role ThreadRole.other h = absurd cc

high_confidence :
    (c : Option ExecThreadProposalConfidence)
    → is_high c ≡ true
    → c ≡ some ExecThreadProposalConfidence.high
high_confidence (some ExecThreadProposalConfidence.high) h = refl
high_confidence (some ExecThreadProposalConfidence.medium) h = absurd cc
high_confidence (some ExecThreadProposalConfidence.low) h = absurd cc
high_confidence none h = absurd cc

-- The store keeps the thread, for coding and not failed, and `o` is its latest output.
pub record IsLatest {J : Type 0} (s : HostStore J) (id : ℕ) (o : ExecThreadOutput J) : Type 0 where
  pub spec : ThreadSpec
  pub status : ExecThreadStatus
  pub kept : Mem (spec, RegisteredThreadStatus.executable status) (store_list s)
  pub own_id : spec.thread_id ≡ id
  pub for_coding : spec.role ≡ ThreadRole.coding
  pub not_failed : status ≢ ExecThreadStatus.failed
  pub latest : pop (recent_exec_outputs id 1 s) ≡ some o

module _ {J : Type 0} (s : HostStore J) where
  IsKept : ThreadSpec × ExecThreadStatus → Type 0
  IsKept e = Mem (e.0, RegisteredThreadStatus.executable e.1) (store_list s)

  executable_entry-IsKept :
      (x : ThreadSpec × RegisteredThreadStatus) (y : ThreadSpec × ExecThreadStatus)
      → Mem x (store_list s)
      → executable_entry x ≡ some y
      → IsKept y
  unfolding IsKept
  executable_entry-IsKept (spec, RegisteredThreadStatus.cognitive c) y h e = absurd cc
  executable_entry-IsKept (spec, RegisteredThreadStatus.executable c) y h e =
      let same : (spec, c) ≡ y = ground (arith, e) in
      subst (λ z. Mem (z.0, RegisteredThreadStatus.executable z.1) (store_list s)) same h

  tagged-IsLatest :
      (x : ThreadSpec × ExecThreadStatus) (found : Option (ExecThreadOutput J))
      (y : ℕ × ExecThreadOutput J)
      → pop (recent_exec_outputs x.0.thread_id 1 s) ≡ found
      → IsKept x × (may_propose x ≡ true)
      → tagged x.0.thread_id found ≡ some y
      → IsLatest s y.0 y.1
  unfolding IsKept
  tagged-IsLatest x none y f h e = absurd cc
  tagged-IsLatest (spec, status) (some o) y f h e =
      let same : (spec.thread_id, o) ≡ y = ground (arith, e) in
      subst (λ z. IsLatest s z.0 z.1) same
        (record {
          spec = spec;
          status = status;
          kept = h.0;
          own_id = refl;
          for_coding = coding_role spec.role (ground (arith, h.1));
          not_failed = λ k. absurd (ground (arith, ap has_failed k, h.1));
          latest = f;
        })

  latest-IsLatest : All (λ y. IsLatest s y.0 y.1) (latest_coding_exec_thread_proposals s)
  unfolding latest_coding_exec_thread_proposals list_executable
  latest-IsLatest =
      filter_map-All (λ e. tagged e.0.thread_id (pop (recent_exec_outputs e.0.thread_id 1 s)))
        (λ x. IsKept x × (may_propose x ≡ true)) (λ y. IsLatest s y.0 y.1)
        (λ x y h e. tagged-IsLatest x (pop (recent_exec_outputs x.0.thread_id 1 s)) y refl h e)
        (filter may_propose (filter_map executable_entry (store_list s)))
        (All-filter_both IsKept may_propose (filter_map executable_entry (store_list s)) (
          filter_map-All executable_entry (λ x. Mem x (store_list s)) IsKept executable_entry-IsKept
            (store_list s) (All-Mem (store_list s))))

module _ {J : Type 0} where
  -- The action is the call that the thread proposes, and says so.
  abbrev pub Stands : ℕ → ExecThreadProposal J → PlannedAction J → Type 0
  Stands id p a =
      (a.tool_name ≡ p.tool_name)
      × (a.params ≡ p.params)
      × (a.origin_exec_thread_id ≡ some id)
      × (a.proposal_id ≡ some p.proposal_id)

-- The one action is what a coding thread proposes, with complete evidence, high confidence and a
-- tool that changes code.
pub record IsProposed {J : Type 0} (s : HostStore J) (actions : List (PlannedAction J))
    : Type 0 where
  pub thread_id : ℕ
  pub output : ExecThreadOutput J
  pub proposal : ExecThreadProposal J
  pub action : PlannedAction J
  pub latest : IsLatest s thread_id output
  pub evidence : output.evidence_complete ≡ true
  pub confidence : output.proposal_confidence ≡ some ExecThreadProposalConfidence.high
  pub proposed : output.proposed_action ≡ some proposal
  pub changes_code :
      Mem proposal.tool_name ("code.edit" ∷ "code.write" ∷ "code.apply_patch" ∷ "fs.write" ∷ [])
  pub only : actions ≡ action ∷ []
  pub stands : Stands thread_id proposal action

module _ {J : Type 0} ⦃e : Eq J⦄ where
  with_proposal-Stands :
      (id : ℕ) (p : ExecThreadProposal J) (actions : List (PlannedAction J))
      → (a : PlannedAction J) × (with_proposal id (some p) actions ≡ a ∷ []) × Stands id p a
  with_proposal-Stands id p [] = (proposed_call id p, refl, (refl, refl, refl, refl))
  with_proposal-Stands id p (a ∷ b ∷ actions) = (proposed_call id p, refl, (refl, refl, refl, refl))
  with_proposal-Stands id p (a ∷ []) = elim (Bool-cases (same_call a p)) [
    | inl same ↦ rw same (
      with_origin id p a,
      refl,
      (
        ==→eq ⦃e = string_eq⦄ a.tool_name p.tool_name (ground (arith, same)),
        ==→eq a.params p.params (ground (arith, same)),
        refl,
        refl,
      ),
    )
    | inr differ ↦ rw differ (proposed_call id p, refl, (refl, refl, refl, refl))
  ]

  with_only_ready-IsProposed :
      (s : HostStore J) (x : ℕ × ExecThreadOutput J) (actions : List (PlannedAction J))
      → filter is_ready (latest_coding_exec_thread_proposals s) ≡ x ∷ []
      → IsProposed s (with_only_ready (x ∷ []) actions)
  with_only_ready-IsProposed s (id, o) actions h = by_proposal o.proposed_action refl
    where
      found : IsLatest s id o × (is_ready (id, o) ≡ true)
      found =
          filter-head (λ y. IsLatest s y.0 y.1) is_ready (id, o)
            (latest_coding_exec_thread_proposals s) [] (latest-IsLatest s) h

      by_proposal :
          (proposed : Option (ExecThreadProposal J))
          → o.proposed_action ≡ proposed
          → IsProposed s (with_only_ready ((id, o) ∷ []) actions)
      by_proposal none none_e = absurd (
          let no : proposes_mutation o.proposed_action ≡ false = rw none_e refl in
          ground (arith, no, found.1))
      by_proposal (some p) some_e =
          let call = with_proposal-Stands id p actions in
          record {
            thread_id = id;
            output = o;
            proposal = p;
            action = call.0;
            latest = found.0;
            evidence = ground (arith, found.1);
            confidence = high_confidence o.proposal_confidence (ground (arith, found.1));
            proposed = some_e;
            changes_code =
                is_one_of-Mem _ p.tool_name
                  (ap proposes_mutation (sym some_e) ∙ ground (arith, found.1));
            only = rw some_e call.1;
            stands = call.2;
          }

  with_only_ready-cases :
      (s : HostStore J) (ready : List (ℕ × ExecThreadOutput J)) (actions : List (PlannedAction J))
      → filter is_ready (latest_coding_exec_thread_proposals s) ≡ ready
      → (with_only_ready ready actions ≡ actions) ⊎ IsProposed s (with_only_ready ready actions)
  with_only_ready-cases s [] actions h = inl refl
  with_only_ready-cases s (x ∷ y ∷ ready) actions h = inl refl
  with_only_ready-cases s (x ∷ []) actions h = inr (with_only_ready-IsProposed s x actions h)

  -- The actions of a decision stay as they are, or there is one in their place: the latest proposal
  -- of a coding thread that the store keeps and that has not failed, with complete evidence, high
  -- confidence and a tool that changes code, marked as its own. A decision with an action that is not
  -- about code stays as it is; one that has actions, all about code, is replaced when exactly one
  -- thread is ready.
  pub reconcile_exec_thread_proposals-cases :
      {F : Type 0} (s : HostStore J) (d : DecisionResult F J)
      → let after = (reconcile_exec_thread_proposals s d).actions in
        ((after ≡ d.actions) ⊎ IsProposed s after)
        × (any (λ a. not (is_code_action a)) d.actions ≡ true → after ≡ d.actions)
        × ((x : ℕ × ExecThreadOutput J)
            → is_empty d.actions ≡ false
            → any (λ a. not (is_code_action a)) d.actions ≡ false
            → filter is_ready (latest_coding_exec_thread_proposals s) ≡ x ∷ []
            → IsProposed s after)
  unfolding reconcile_exec_thread_proposals
  reconcile_exec_thread_proposals-cases s d = elim (Bool-cases (is_empty d.actions)) [
    | inl none_e ↦ rw none_e (inl refl, λ h. refl, λ x h k l. absurd cc)
    | inr some_e ↦ elim (Bool-cases (any (λ a. not (is_code_action a)) d.actions)) [
      | inl other ↦ rw some_e (rw other (inl refl, λ h. refl, λ x h k l. absurd cc))
      | inr code ↦ rw some_e (
          rw code (
            with_only_ready-cases s (filter is_ready (latest_coding_exec_thread_proposals s))
                d.actions refl,
            λ h. absurd cc,
            λ x h k l. rw l (with_only_ready-IsProposed s x d.actions l),
          ))
    ]
  ]
