-- ===== src/FuncOp/Readiness.antt =====
-- func-operation/internal/logic/readiness.go and the version flags of logic/function.go: what a
-- function needs next.
use ai_dandelion.Base.{
  ◌<◌, ◌≤◌, String, ◌≡◌, ◌⊎◌, Bool, true, false, not, ◌&&◌, ◌||◌, arith, ltb, ◌==◌, if◌then◌else◌,
  is_empty, trim_space,
}
use ai_dandelion.FuncOp.Model.{Function, FunctionStatus}

pub data NextAction : Type 0 where
  generate_product_doc adopt_product_doc generate_technical_doc adopt_technical_doc : NextAction
  generate_page publish_function open_published_function : NextAction

pub record Flags : Type 0 where
  pub product_draft_ready : Bool
  pub technical_draft_ready : Bool
  pub technical_stale : Bool
  pub code_stale : Bool
  pub code_draft_ready : Bool

-- `functionVersionFlags`
unfoldable pub version_flags : Function → Flags
version_flags f = record {
  product_draft_ready = ltb f.product_doc_version f.product_draft_version;
  technical_draft_ready = ltb f.technical_doc_version f.technical_draft_version;
  technical_stale =
      f.doc_technical_stale
      || (ltb 0 f.technical_doc_version
          && ltb 0 f.product_doc_version
          && ltb 0 f.technical_source_product_version
          && not (f.technical_source_product_version == f.product_doc_version));
  code_stale =
      if ltb 0 f.code_version
      then (if ltb 0 f.code_source_technical_version
          then not (f.code_source_technical_version == f.technical_doc_version)
          else ltb f.code_version f.technical_doc_version)
      else false;
  code_draft_ready = false;
}

pub record Readiness : Type 0 where
  pub label : String
  pub blocking_reason : String
  pub next_action : NextAction
  pub pending_product_draft : Bool
  pub pending_technical_draft : Bool
  pub pending_code_draft : Bool

abbrev pub has_generated_code : Function → Bool
has_generated_code f = not (is_empty (trim_space f.generated_app_id)) && ltb 0 f.code_version

abbrev pub is_published_function : FunctionStatus → Bool
is_published_function FunctionStatus.published = true
is_published_function FunctionStatus.draft = false

abbrev readiness_of : Flags → String → String → NextAction → Readiness
readiness_of v label reason action = record {
  label = label;
  blocking_reason = reason;
  next_action = action;
  pending_product_draft = v.product_draft_ready;
  pending_technical_draft = v.technical_draft_ready;
  pending_code_draft = v.code_draft_ready;
}

abbrev published_readiness : Flags → Readiness
published_readiness v =
    if v.product_draft_ready || v.technical_draft_ready
    then readiness_of v "已发布" "发布后有新改动，尚未采用"
        (if v.technical_draft_ready then adopt_technical_doc else adopt_product_doc)
    else readiness_of v "已发布" "" open_published_function

abbrev page_readiness : Function → Flags → Readiness
page_readiness f v =
    if v.code_stale
    then readiness_of v "待生成页面" "技术方案已更新，页面需要重新生成" generate_page
    else if not (has_generated_code f)
    then readiness_of v "待生成页面" "" generate_page
    else if is_published_function f.status
    then published_readiness v
    else readiness_of v "页面已就绪" "" publish_function

abbrev technical_readiness : Function → Flags → Readiness
technical_readiness f v =
    if v.technical_draft_ready
    then readiness_of v "待确认技术方案" "" adopt_technical_doc
    else if f.technical_doc_version == 0 || v.technical_stale
    then readiness_of v "待完善技术方案" (if v.technical_stale then "产品方案已更新，技术方案需要同步" else "")
        generate_technical_doc
    else page_readiness f v

-- `buildFunctionReadiness`, for a function that is not nil.
unfoldable pub build_readiness : Function → Readiness
unfolding version_flags
build_readiness f =
    let v = version_flags f in
    if f.product_doc_version == 0
    then readiness_of v "待完善产品方案" ""
        (if v.product_draft_ready then adopt_product_doc else generate_product_doc)
    else if v.product_draft_ready
    then readiness_of v "待确认产品方案" "" adopt_product_doc
    else technical_readiness f v

-- What a complete function has: an adopted product document and technical document with no newer
-- draft, neither stale, and a generated page.
pub record IsComplete (f : Function) : Type 0 where
  pub product : 0 < f.product_doc_version
  pub technical : 0 < f.technical_doc_version
  pub no_product_draft : f.product_draft_version ≤ f.product_doc_version
  pub no_technical_draft : f.technical_draft_version ≤ f.technical_doc_version
  pub technical_fresh : (version_flags f).technical_stale ≡ false
  pub code_fresh : (version_flags f).code_stale ≡ false
  pub page : has_generated_code f ≡ true

ready-IsComplete :
    (f : Function)
    → ((build_readiness f).next_action ≡ publish_function)
      ⊎ ((build_readiness f).next_action ≡ open_published_function)
    → IsComplete f
unfolding build_readiness
ready-IsComplete f h = ground arith

complete_ready :
    (f : Function)
    → IsComplete f
    → (build_readiness f).next_action
      ≡ (if is_published_function f.status then open_published_function else publish_function)
unfolding build_readiness
complete_ready f c = ground arith

-- Publishing, or opening the published function, is the next action exactly of a complete
-- function: of one that is not published the first, and of a published one the second.
pub build_readiness_iff :
    (f : Function)
    → (((build_readiness f).next_action ≡ publish_function)
          ⊎ ((build_readiness f).next_action ≡ open_published_function)
        → IsComplete f)
      × (IsComplete f
          → (build_readiness f).next_action ≡ (
              if is_published_function f.status then open_published_function else publish_function))
build_readiness_iff f = (ready-IsComplete f, complete_ready f)

-- Whatever its state, a function with a pending draft is never shown as published: the label of a
-- published function means that no product or technical draft waits.
published_label_clean :
    (f : Function)
    → (build_readiness f).next_action ≡ open_published_function
    → ((build_readiness f).pending_product_draft ≡ false)
      × ((build_readiness f).pending_technical_draft ≡ false)
      × ((build_readiness f).blocking_reason ≡ "")
unfolding build_readiness
published_label_clean f h = ground arith
