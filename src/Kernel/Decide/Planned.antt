-- ===== src/Kernel/Decide/Planned.antt =====
-- The actions that one response of crates/exoskeleton-host/src/kernel/decide.rs adds to the plan.
use exoskeleton.Base.{
  if◌then◌else◌, Bool-cases, All, ◌==◌, String, ◌≡◌, refl, sym, ap, ◌∙◌, inl, inr, true, List, [],
  ◌∷◌, ◌++◌, nat_eq, string_eq,
}
use exoskeleton.Base.Errors.{Result, ok, err}
use mathlib.Core.List.{append-nil, append_assoc}
use exoskeleton.Core.Llm.{ContentBlock, text_block, tool_use, tool_result, LlmResponse, text}
use exoskeleton.Kernel.Types.{PlannedAction}
use exoskeleton.Kernel.Tools.{
  Json, CognitiveToolResult, process_cognitive_tool, accumulate_cognitive_outcome,
  is_cognitive_tool, is_introspection_tool, CognitiveAccumulator,
}
use exoskeleton.Kernel.Decide.{
  Resolved, is_external, planned, resolve_block, resolve_blocks, resolve_cognitive_tool,
  push_reasoning, resolve_response,
}

module _ {J : Type 0} (trim : String → String) where
  -- The actions that the tool calls of a response stand for: those that the kernel does not resolve
  -- itself, in order.
  abbrev pub planned_of : String → List (ContentBlock J) → List (PlannedAction J)
  planned_of reasoning [] = []
  planned_of reasoning (text_block t ∷ blocks) = planned_of reasoning blocks
  planned_of reasoning (tool_result id content is_error ∷ blocks) = planned_of reasoning blocks
  planned_of reasoning (tool_use id name input ∷ blocks) =
      if is_external name
      then planned trim reasoning id name input ∷ planned_of reasoning blocks
      else planned_of reasoning blocks

  pub planned_of-external :
      (reasoning : String) (blocks : List (ContentBlock J))
      → All (λ a. is_external a.tool_name ≡ true) (planned_of reasoning blocks)
  planned_of-external reasoning [] = tt
  planned_of-external reasoning (text_block t ∷ blocks) = planned_of-external reasoning blocks
  planned_of-external reasoning (tool_result id content is_error ∷ blocks) =
      planned_of-external reasoning blocks
  planned_of-external reasoning (tool_use id name input ∷ blocks) =
      elim (Bool-cases (is_external name)) [
        | inl e ↦ rw e (e, planned_of-external reasoning blocks)
        | inr e ↦ rw e (planned_of-external reasoning blocks)
      ]

  planned_of-cons :
      (reasoning : String) (b : ContentBlock J) (blocks : List (ContentBlock J))
      → planned_of reasoning (b ∷ blocks)
        ≡ planned_of reasoning (b ∷ []) ++ planned_of reasoning blocks
  planned_of-cons reasoning (text_block t) blocks = refl
  planned_of-cons reasoning (tool_result id content is_error) blocks = refl
  planned_of-cons reasoning (tool_use id name input) blocks = elim (Bool-cases (is_external name)) [
    | inl e ↦ rw e refl
    | inr e ↦ rw e refl
  ]

module _ {F J : Type 0} where
  resolve_cognitive_tool-actions :
      (id : String) (r : Result (CognitiveToolResult F J)) (s : Resolved F J)
      → (resolve_cognitive_tool id r s).accumulator.actions ≡ s.accumulator.actions
  unfolding accumulate_cognitive_outcome
  resolve_cognitive_tool-actions id (ok result) s = refl
  resolve_cognitive_tool-actions id (err e) s = refl

module _ {F J : Type 0} (json : Json F J) (trim : String → String)
    (introspect : String → String → J → ContentBlock J) where
  resolve_block-actions :
      (reasoning : String) (b : ContentBlock J) (s : Resolved F J)
      → (resolve_block json trim introspect reasoning b s).accumulator.actions
        ≡ s.accumulator.actions ++ planned_of trim reasoning (b ∷ [])
  unfolding resolve_block
  resolve_block-actions reasoning (text_block t) s = sym (append-nil _)
  resolve_block-actions reasoning (tool_result id content is_error) s = sym (append-nil _)
  resolve_block-actions reasoning (tool_use id name input) s =
      elim (Bool-cases (is_introspection_tool name)) [
        | inl e ↦ rw e (sym (append-nil _))
        | inr e ↦ elim (Bool-cases (is_cognitive_tool name)) [
          | inl c ↦ rw e (
              rw c (
                resolve_cognitive_tool-actions id (process_cognitive_tool json name input) s
                ∙ sym (append-nil _)))
          | inr c ↦ rw e (rw c refl)
        ]
      ]

  resolve_blocks-actions :
      (reasoning : String) (blocks : List (ContentBlock J)) (s : Resolved F J)
      → (resolve_blocks json trim introspect reasoning blocks s).accumulator.actions
        ≡ s.accumulator.actions ++ planned_of trim reasoning blocks
  unfolding resolve_blocks
  resolve_blocks-actions reasoning [] s = sym (append-nil _)
  resolve_blocks-actions reasoning (b ∷ blocks) s =
      resolve_blocks-actions reasoning blocks (resolve_block json trim introspect reasoning b s)
      ∙ ap (λ xs. xs ++ planned_of trim reasoning blocks) (resolve_block-actions reasoning b s)
      ∙ append_assoc s.accumulator.actions (planned_of trim reasoning (b ∷ [])) _
      ∙ ap (λ xs. s.accumulator.actions ++ xs) (sym (planned_of-cons trim reasoning b blocks))

  push_reasoning-actions :
      (reasoning : String) (a : CognitiveAccumulator F J)
      → (push_reasoning trim reasoning a).actions ≡ a.actions
  push_reasoning-actions reasoning a = elim (Bool-cases (trim reasoning == "")) [
    | inl e ↦ rw e refl
    | inr e ↦ rw e refl
  ]

  -- The actions that a response leaves: those planned before, and its own.
  pub resolve_response-actions :
      (r : LlmResponse F J) (a : CognitiveAccumulator F J)
      → (resolve_response json trim introspect r a).accumulator.actions
        ≡ a.actions ++ planned_of trim (text r) r.content_blocks
  resolve_response-actions r a =
      resolve_blocks-actions (text r) r.content_blocks _
      ∙ ap (λ xs. xs ++ planned_of trim (text r) r.content_blocks)
          (push_reasoning-actions (text r) a)
