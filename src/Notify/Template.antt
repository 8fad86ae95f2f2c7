-- ===== src/Notify/Template.antt =====
-- The checks on a notification template and on the values of its variables: `ExtractPlaceholders`,
-- `ValidateParams`, `ValidateContent` and what they call in internal/notify/render.go, over the types
-- of internal/domain/notify.go. The two regular expressions are written as functions. The test of a
-- JSON sample needs encoding/json: it is a parameter.
pub mod Placeholders
pub mod Params
pub mod Content
mod Tests
use Prim.Native.Char.{Char, code}
use Prim.Native.String.{◌++◌ as append}
use fp.Common.{
  String, ℕ, zero, suc, Bool, true, false, not, ◌&&◌, ◌||◌, List, [], ◌∷◌, Option, none, some, ◌==◌,
  leb, nat_eq, if◌then◌else◌,
}
use fp.Common.Lists.{contains, filter}
use fp.Common.GoMap.{GoMap, has, keys}
use fp.Notify.Template.Placeholders.{all_names, is_ident, is_blank}

-- `ExtractPlaceholders`: each name once, in the order of first use.
unfoldable pub first_uses : List String → List String → List String
first_uses seen [] = []
first_uses seen (n ∷ ns) =
    let skip = first_uses seen ns in
    let keep = first_uses (n ∷ seen) ns in if contains seen n then skip else n ∷ keep

unfoldable pub extract_placeholders : String → List String
extract_placeholders s = first_uses [] (all_names s)

pub record NotifyContent : Type 0 where
  pub subject : String
  pub content : String
  pub content_type : String
  pub method : String
  pub variables : List String
  pub mentioned_list : List String
  pub mentioned_mobile_list : List String
  pub at_mobiles : List String
  pub is_at_all : Bool

-- `NotifyChannel` and `NotifyMode`, texts in the source: `unknown` is any other text.
pub data NotifyChannel : Type 0 where
  sms email telegram wecom_bot dingtalk_bot webhook : NotifyChannel
  unknown : String → NotifyChannel

pub data NotifyMode : Type 0 where
  vendor custom : NotifyMode
  unknown_mode : String → NotifyMode

unfoldable pub is_custom : NotifyMode → Bool
is_custom custom = true
is_custom _ = false

unfoldable pub is_vendor : NotifyMode → Bool
is_vendor vendor = true
is_vendor _ = false

-- `NotifyChannel.Valid`
unfoldable pub valid_channel : NotifyChannel → Bool
valid_channel (unknown _) = false
valid_channel _ = true

-- `NotifyChannel.AllowsMode`
unfoldable pub allows_mode : NotifyChannel → NotifyMode → Bool
allows_mode sms m = is_vendor m
allows_mode email m = is_vendor m || is_custom m
allows_mode (unknown _) m = false
allows_mode _ m = is_custom m

-- `len(xs) > 0`
unfoldable pub is_filled : List String → Bool
is_filled [] = false
is_filled (_ ∷ _) = true

-- `ValidateParams`: the keys that are missing and those that are unexpected, if there is one. The
-- source sorts both for the error's detail.
pub record ParamsMismatch : Type 0 where
  pub missing : List String
  pub unexpected : List String

unfoldable pub validate_params : List String → GoMap String → Option ParamsMismatch
validate_params variables params =
    let missing = filter (λ v. not (has v params)) variables in
    let unexpected = filter (λ k. not (contains variables k)) (keys params) in
    let mismatch = some (record { missing = missing; unexpected = unexpected }) in
    if is_filled missing || is_filled unexpected then mismatch else none

-- The refusals of `ValidateContent`; all are domain errors with the code NOTIFY_TEMPLATE_INVALID.
pub data TemplateError : Type 0 where
  unknown_channel mode_not_allowed content_is_empty : TemplateError
  bad_variable duplicate_variable : String → TemplateError
  unsupported_field : String → TemplateError
  subject_is_empty bad_content_type get_has_content_type bad_method : TemplateError
  undeclared unused : List String → TemplateError
  not_json : TemplateError

-- The loop over the variables, with what was seen.
unfoldable pub check_variables : List String → List String → Option TemplateError
check_variables seen [] = none
check_variables seen (v ∷ vs) =
    let rest = check_variables (v ∷ seen) vs in
    if not (is_ident v)
    then some (bad_variable v)
    else if contains seen v
    then some (duplicate_variable v)
    else rest

-- `presentFields`, in the order of `optionalFields`.
unfoldable pub present_fields : NotifyContent → List (String × Bool)
present_fields c =
    ("subject", not (c.subject == ""))
    ∷ ("contentType", not (c.content_type == ""))
    ∷ ("method", not (c.method == ""))
    ∷ ("mentionedList", is_filled c.mentioned_list)
    ∷ ("mentionedMobileList", is_filled c.mentioned_mobile_list)
    ∷ ("atMobiles", is_filled c.at_mobiles)
    ∷ ("isAtAll", c.is_at_all)
    ∷ []

unfoldable pub first_unsupported : List String → List (String × Bool) → Option TemplateError
first_unsupported allowed [] = none
first_unsupported allowed ((name, present) ∷ fields) =
    let rest = first_unsupported allowed fields in
    if present && not (contains allowed name) then some (unsupported_field name) else rest

unfoldable pub reject_unsupported : NotifyContent → List String → Option TemplateError
reject_unsupported c allowed = first_unsupported allowed (present_fields c)

pub data Checked : Type 0 where
  accepted : NotifyContent → Checked
  refused : TemplateError → Checked

-- `if err = rejectUnsupported(…); err != nil { break }`, and then the rest of the case.
abbrev pub unless_refused : Option TemplateError → Checked → Checked
unless_refused none next = next
unless_refused (some e) next = refused e

-- The case of an e-mail.
unfoldable pub check_email : NotifyContent → Checked
check_email c =
    let c' = if c.content_type == "" then record c { content_type = "text/plain" } else c in
    if is_blank c.subject
    then refused subject_is_empty
    else if c'.content_type == "text/plain" || c'.content_type == "text/html"
    then accepted c'
    else refused bad_content_type

-- The case of a POST, and of a webhook.
unfoldable pub check_post : NotifyContent → Checked
check_post c =
    let c' = if c.content_type == "" then record c { content_type = "application/json" } else c in
    if c'.content_type == "application/json" || c'.content_type == "text/plain"
    then accepted c'
    else refused bad_content_type

unfoldable pub check_webhook : NotifyContent → Checked
check_webhook c =
    let c' = if c.method == "" then record c { method = "POST" } else c in
    if c'.method == "GET"
    then (if c'.content_type == "" then accepted c' else refused get_has_content_type)
    else if c'.method == "POST"
    then check_post c'
    else refused bad_method

-- The switch over mode and channel.
unfoldable pub check_fields : NotifyChannel → NotifyMode → NotifyContent → Checked
check_fields ch vendor c = unless_refused (reject_unsupported c []) (accepted c)
check_fields email m c =
    unless_refused (reject_unsupported c ("subject" ∷ "contentType" ∷ [])) (check_email c)
check_fields telegram m c = unless_refused (reject_unsupported c []) (accepted c)
check_fields wecom_bot m c =
    unless_refused (reject_unsupported c ("mentionedList" ∷ "mentionedMobileList" ∷ []))
      (accepted c)
check_fields dingtalk_bot m c =
    unless_refused (reject_unsupported c ("atMobiles" ∷ "isAtAll" ∷ [])) (accepted c)
check_fields webhook m c =
    unless_refused (reject_unsupported c ("method" ∷ "contentType" ∷ [])) (check_webhook c)
check_fields _ m c = accepted c

-- `checkPlaceholders`
unfoldable pub used_names : NotifyContent → List String
used_names c = extract_placeholders (append c.subject (append "\n" c.content))

unfoldable pub check_placeholders : NotifyContent → Option TemplateError
check_placeholders c =
    let used = used_names c in
    let extra = filter (λ u. not (contains c.variables u)) used in
    let idle = filter (λ v. not (contains used v)) c.variables in
    if is_filled extra
    then some (undeclared extra)
    else if is_filled idle
    then some (unused idle)
    else none

unfoldable pub is_webhook : NotifyChannel → Bool
is_webhook webhook = true
is_webhook _ = false

-- The last part, for a custom template.
unfoldable pub check_custom : (NotifyContent → Bool) → NotifyChannel → NotifyContent → Checked
check_custom sample_is_json ch c =
    let posts_json =
      is_webhook ch && (c.method == "POST" && c.content_type == "application/json") in
    let last = if posts_json && not (sample_is_json c) then refused not_json else accepted c in
    unless_refused (check_placeholders c) last

unfoldable pub finish : (NotifyContent → Bool) → NotifyChannel → NotifyMode → Checked → Checked
finish sample_is_json ch mode (refused e) = refused e
finish sample_is_json ch mode (accepted c) =
    if is_custom mode then check_custom sample_is_json ch c else accepted c

-- `ValidateContent`: whether the content, each variable replaced by 0, is JSON is a parameter.
unfoldable pub validate_content :
    (NotifyContent → Bool) → NotifyChannel → NotifyMode → NotifyContent → Checked
validate_content sample_is_json ch mode c =
    if not (valid_channel ch)
    then refused unknown_channel
    else if not (allows_mode ch mode)
    then refused mode_not_allowed
    else if is_blank c.content
    then refused content_is_empty
    else unless_refused (check_variables [] c.variables)
        (finish sample_is_json ch mode (check_fields ch mode c))
