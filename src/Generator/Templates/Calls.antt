-- ===== src/Generator/Templates/Calls.antt =====
-- Which of the collected handlers have a part in the code that cmd/angzarr-gen/main.go generates.
use text.Mathlib.TextLemmas.{nil-append}
use angzarr_client_go.Prelude.{
  String, ◌⧺◌, Bool, false, ◌||◌, List, [], ◌∷◌, ◌≡◌, refl, sym, ap, ◌∙◌, arith, Bool-cases, inl,
  inr, if◌then◌else◌,
}
use angzarr_client_go.Generator.Source.{HandlerInfo, TypeInfo}
use angzarr_client_go.Generator.Templates.{
  each, is_set, aggregate_on, aggregate_on_rejected, aggregate_wrap, aggregate_wrap_rejected,
  aggregate_head, aggregate_template, pm_template,
}

abbrev pub keep : (HandlerInfo → Bool) → List HandlerInfo → List HandlerInfo
keep test [] = []
keep test (h ∷ hs) = let rest = keep test hs in if test h then h ∷ rest else rest

-- Handlers that give no text may be left out.
each-keep :
    (f : HandlerInfo → String) (test : HandlerInfo → Bool)
    → ((h : HandlerInfo) → test h ≡ false → f h ≡ "")
    → (hs : List HandlerInfo) → each f hs ≡ each f (keep test hs)
unfolding each
each-keep f test silent [] = refl
each-keep f test silent (h ∷ hs) = elim (Bool-cases (test h)) [
  | inl kept ↦
      ap (λ s. f h ⧺ s) (each-keep f test silent hs)
      ∙ ap (λ b. each f (if b then h ∷ keep test hs else keep test hs)) (sym kept)
  | inr left ↦
      ap (λ s. s ⧺ each f hs) (silent h left)
      ∙ nil-append (each f hs)
      ∙ each-keep f test silent hs
      ∙ ap (λ b. each f (if b then h ∷ keep test hs else keep test hs)) (sym left)
]

-- A method that is marked by `@handler` or `@rejected`.
abbrev is_call : HandlerInfo → Bool
is_call h = h.is_rejected || is_set h.command_type

module _ (info : TypeInfo) (h : HandlerInfo) (e : is_call h ≡ false) where
  aggregate_on_silent : aggregate_on h ≡ ""
  aggregate_on_silent = ground (arith, e)

  aggregate_on_rejected_silent : aggregate_on_rejected h ≡ ""
  aggregate_on_rejected_silent = ground (arith, e)

  aggregate_wrap_silent : aggregate_wrap info h ≡ ""
  aggregate_wrap_silent = ground (arith, e)

  aggregate_wrap_rejected_silent : aggregate_wrap_rejected info h ≡ ""
  aggregate_wrap_rejected_silent = ground (arith, e)

-- The code for an aggregate is that for its methods that are marked by `@handler` or `@rejected`; its
-- other markers have no effect.
aggregate_template-keep :
    (info : TypeInfo)
    → aggregate_template info
      ≡ aggregate_template (record info { handlers = keep is_call info.handlers })
aggregate_template-keep info =
    ap4 (each-keep aggregate_on is_call (aggregate_on_silent info) info.handlers)
      (each-keep aggregate_on_rejected is_call (aggregate_on_rejected_silent info) info.handlers)
      (each-keep (aggregate_wrap info) is_call (aggregate_wrap_silent info) info.handlers)
      (each-keep (aggregate_wrap_rejected info) is_call (aggregate_wrap_rejected_silent info)
        info.handlers)
  where
    ap4 :
        {a b c d a' b' c' d' : String}
        → a ≡ a'
        → b ≡ b'
        → c ≡ c'
        → d ≡ d'
        → aggregate_head info ⧺ a ⧺ b ⧺ "\n" ⧺ "}\n" ⧺ c ⧺ d ⧺ "\n"
          ≡ aggregate_head info ⧺ a' ⧺ b' ⧺ "\n" ⧺ "}\n" ⧺ c' ⧺ d' ⧺ "\n"
    ap4 p q r s i = aggregate_head info ⧺ p i ⧺ q i ⧺ "\n" ⧺ "}\n" ⧺ r i ⧺ s i ⧺ "\n"

-- The code for a process manager is the same whatever its methods are marked with.
pm_template-handlers :
    (info : TypeInfo) (hs : List HandlerInfo)
    → pm_template (record info { handlers = hs }) ≡ pm_template info
pm_template-handlers info hs = refl
