-- ===== src/Notify/Template/Content.antt =====
-- `ValidateContent` of internal/notify/render.go.
use fp.Common.{
  String, Bool, true, false, not, ◌&&◌, List, [], ◌∷◌, Option, none, some, ◌==◌, if◌then◌else◌, ◌≡◌,
  refl, ap, sym, ◌∙◌, subst, arith, eq_iff, Bool-cases, inl, inr, ◌↔◌, ◌⊎◌,
}
use fp.Common.Lists.{In, contains_iff}
use fp.Notify.Template.Placeholders.{is_ident, is_blank}
use fp.Notify.Template.Params.{check_placeholders_iff}
use fp.Notify.Template.{
  NotifyContent, NotifyChannel, NotifyMode, custom, vendor, unknown_mode, sms, email, telegram,
  wecom_bot, dingtalk_bot, webhook, unknown, is_custom, is_webhook, allows_mode, check_variables,
  Checked, accepted, refused, TemplateError, unless_refused, check_email, check_post, check_webhook,
  reject_unsupported, check_fields, check_placeholders, used_names, check_custom, finish,
  validate_content,
}

-- The variables are names, each new.
abbrev pub AreVariables : List String → List String → Type 0
AreVariables seen [] = Unit
AreVariables seen (v ∷ vs) = (is_ident v ≡ true) × (¬ In v seen) × AreVariables (v ∷ seen) vs

check_variables-AreVariables :
    (seen vs : List String) → check_variables seen vs ≡ none → AreVariables seen vs
unfolding check_variables
check_variables-AreVariables seen [] h = tt
check_variables-AreVariables seen (v ∷ vs) h =
    ground (arith, contains_iff seen v, check_variables-AreVariables (v ∷ seen) vs)

-- The checks fill in defaults and change nothing else.
pub record SameText (c d : NotifyContent) : Type 0 where
  pub subject : d.subject ≡ c.subject
  pub content : d.content ≡ c.content
  pub variables : d.variables ≡ c.variables

unless_refused_ok :
    (e : Option TemplateError) (next : Checked) (c : NotifyContent)
    → unless_refused e next ≡ accepted c
    → (e ≡ none) × (next ≡ accepted c)
unless_refused_ok none next c h = (refl, h)
unless_refused_ok (some e) next c h = absurd (cc h)

email_ok : (c d : NotifyContent) → check_email c ≡ accepted d → SameText c d
unfolding check_email
email_ok c d h = ground arith

post_ok : (c d : NotifyContent) → check_post c ≡ accepted d → SameText c d × (d.method ≡ c.method)
unfolding check_post
post_ok c d h = ground arith

-- The method of an accepted webhook is one of two, and a GET has no content type.
pub IsRequest : NotifyContent → Type 0
IsRequest d = ((d.method ≡ "GET") × (d.content_type ≡ "")) ⊎ (d.method ≡ "POST")

webhook_ok : (c d : NotifyContent) → check_webhook c ≡ accepted d → SameText c d × IsRequest d
unfolding check_webhook IsRequest
webhook_ok c d h =
    let c' = if c.method == "" then record c { method = "POST" } else c in
    ground (
      arith,
      eq_iff c'.method "GET",
      eq_iff c'.content_type "",
      eq_iff c'.method "POST",
      post_ok c' d,
    )

same : (c d : NotifyContent) → accepted c ≡ accepted d → SameText c d
same c d h = ground arith

check_fields_ok :
    (ch : NotifyChannel) (m : NotifyMode) (c d : NotifyContent)
    → check_fields ch m c ≡ accepted d
    → allows_mode ch m ≡ true
    → SameText c d × (is_webhook ch ≡ true → IsRequest d)
unfolding check_fields is_webhook allows_mode is_custom
check_fields_ok webhook vendor c d h n = absurd (cc n)
check_fields_ok sms vendor c d h n =
    (same c d (unless_refused_ok (reject_unsupported c []) (accepted c) d h).1, λ e. absurd (cc e))
check_fields_ok telegram vendor c d h n =
    (same c d (unless_refused_ok (reject_unsupported c []) (accepted c) d h).1, λ e. absurd (cc e))
check_fields_ok wecom_bot vendor c d h n =
    (same c d (unless_refused_ok (reject_unsupported c []) (accepted c) d h).1, λ e. absurd (cc e))
check_fields_ok dingtalk_bot vendor c d h n =
    (same c d (unless_refused_ok (reject_unsupported c []) (accepted c) d h).1, λ e. absurd (cc e))
check_fields_ok email vendor c d h n =
    (same c d (unless_refused_ok (reject_unsupported c []) (accepted c) d h).1, λ e. absurd (cc e))
check_fields_ok (unknown x) vendor c d h n =
    (same c d (unless_refused_ok (reject_unsupported c []) (accepted c) d h).1, λ e. absurd (cc e))
check_fields_ok sms custom c d h n = (same c d h, λ e. absurd (cc e))
check_fields_ok sms (unknown_mode y) c d h n = (same c d h, λ e. absurd (cc e))
check_fields_ok telegram custom c d h n =
    (same c d (unless_refused_ok (reject_unsupported c []) (accepted c) d h).1, λ e. absurd (cc e))
check_fields_ok telegram (unknown_mode y) c d h n =
    (same c d (unless_refused_ok (reject_unsupported c []) (accepted c) d h).1, λ e. absurd (cc e))
check_fields_ok wecom_bot custom c d h n = (
  same c d
      (unless_refused_ok (reject_unsupported c ("mentionedList" ∷ "mentionedMobileList" ∷ []))
        (accepted c) d h).1,
  λ e. absurd (cc e),
)
check_fields_ok wecom_bot (unknown_mode y) c d h n = (
  same c d
      (unless_refused_ok (reject_unsupported c ("mentionedList" ∷ "mentionedMobileList" ∷ []))
        (accepted c) d h).1,
  λ e. absurd (cc e),
)
check_fields_ok dingtalk_bot custom c d h n = (
  same c d
      (unless_refused_ok (reject_unsupported c ("atMobiles" ∷ "isAtAll" ∷ [])) (accepted c) d h).1,
  λ e. absurd (cc e),
)
check_fields_ok dingtalk_bot (unknown_mode y) c d h n = (
  same c d
      (unless_refused_ok (reject_unsupported c ("atMobiles" ∷ "isAtAll" ∷ [])) (accepted c) d h).1,
  λ e. absurd (cc e),
)
check_fields_ok email custom c d h n = (
  email_ok c d
      (unless_refused_ok (reject_unsupported c ("subject" ∷ "contentType" ∷ [])) (check_email c) d
        h).1,
  λ e. absurd (cc e),
)
check_fields_ok email (unknown_mode y) c d h n = (
  email_ok c d
      (unless_refused_ok (reject_unsupported c ("subject" ∷ "contentType" ∷ [])) (check_email c) d
        h).1,
  λ e. absurd (cc e),
)
check_fields_ok webhook custom c d h n =
    let (s, q) =
      webhook_ok c d
        (unless_refused_ok (reject_unsupported c ("method" ∷ "contentType" ∷ [])) (check_webhook c)
          d h).1 in
    (s, λ _. q)
check_fields_ok webhook (unknown_mode y) c d h n =
    let (s, q) =
      webhook_ok c d
        (unless_refused_ok (reject_unsupported c ("method" ∷ "contentType" ∷ [])) (check_webhook c)
          d h).1 in
    (s, λ _. q)
check_fields_ok (unknown x) custom c d h n = (same c d h, λ e. absurd (cc e))
check_fields_ok (unknown x) (unknown_mode y) c d h n = (same c d h, λ e. absurd (cc e))

check_custom_ok :
    (json : NotifyContent → Bool) (ch : NotifyChannel) (c d : NotifyContent)
    → check_custom json ch c ≡ accepted d
    → (c ≡ d)
      × (check_placeholders d ≡ none)
      × (is_webhook ch ≡ true
          → d.method ≡ "POST"
          → d.content_type ≡ "application/json"
          → json d ≡ true)
unfolding check_custom
check_custom_ok json ch c d h =
    let posts = is_webhook ch && (c.method == "POST" && c.content_type == "application/json") in
    let last = if posts && not (json c) then refused TemplateError.not_json else accepted c in
    let (e, k) = unless_refused_ok (check_placeholders c) last d h in
    let id : c ≡ d = ground arith in
    (
      id,
      subst (λ x. check_placeholders x ≡ none) id e,
      subst
          (λ x.
            is_webhook ch ≡ true
            → x.method ≡ "POST"
            → x.content_type ≡ "application/json"
            → json x ≡ true)
          id
          (λ w a b.
            ground (arith, eq_iff c.method "POST", eq_iff c.content_type "application/json")),
    )

-- What `ValidateContent` promises of the content that it returns.
pub record IsTemplate (json : NotifyContent → Bool) (ch : NotifyChannel) (mode : NotifyMode)
    (c d : NotifyContent) : Type 0 where
  pub allowed : allows_mode ch mode ≡ true
  pub not_blank : is_blank d.content ≡ false
  pub same_text : SameText c d
  pub names : AreVariables [] d.variables
  pub used : is_custom mode ≡ true → (k : String) → In k (used_names d) ↔ In k d.variables
  pub request : is_webhook ch ≡ true → IsRequest d
  pub sample :
      is_custom mode ≡ true
      → is_webhook ch ≡ true
      → d.method ≡ "POST"
      → d.content_type ≡ "application/json"
      → json d ≡ true

finish_ok :
    (json : NotifyContent → Bool) (ch : NotifyChannel) (mode : NotifyMode) (x : Checked)
    (d : NotifyContent)
    → finish json ch mode x ≡ accepted d
    → (x ≡ accepted d) × (is_custom mode ≡ true → check_custom json ch d ≡ accepted d)
unfolding finish
finish_ok json ch mode (refused e) d h = absurd (cc h)
finish_ok json ch mode (accepted c) d h = elim (Bool-cases (is_custom mode)) [
  | inl own ↦
      let k : check_custom json ch c ≡ accepted d = rw own at h in
      let id = (check_custom_ok json ch c d k).0 in
      (ap accepted id, λ _. subst (λ x. check_custom json ch x ≡ accepted d) id k)
  | inr other ↦ (ground arith, λ e. absurd (cc (sym e ∙ other)))
]

validate_content_steps :
    (json : NotifyContent → Bool) (ch : NotifyChannel) (mode : NotifyMode) (c d : NotifyContent)
    → validate_content json ch mode c ≡ accepted d
    → (allows_mode ch mode ≡ true)
      × (is_blank c.content ≡ false)
      × (check_variables [] c.variables ≡ none)
      × (finish json ch mode (check_fields ch mode c) ≡ accepted d)
unfolding validate_content
validate_content_steps json ch mode c d h =
    let u =
      unless_refused_ok (check_variables [] c.variables)
        (finish json ch mode (check_fields ch mode c)) d in
    ground (arith, u)

-- A content that is accepted belongs to a channel that allows its mode, and is returned with the
-- same subject, text and variables, the text not blank and the variables names without a repetition.
-- In a custom template the placeholders of subject and text are exactly the variables, and a webhook
-- that posts JSON has passed the test of a sample. A webhook is a GET without a content type or a
-- POST.
pub validate_content_ok :
    (json : NotifyContent → Bool) (ch : NotifyChannel) (mode : NotifyMode) (c d : NotifyContent)
    → validate_content json ch mode c ≡ accepted d
    → IsTemplate json ch mode c d
validate_content_ok json ch mode c d h =
    let (allowed, text, vars, last) = validate_content_steps json ch mode c d h in
    let (fields, own) = finish_ok json ch mode (check_fields ch mode c) d last in
    let (t, q) = check_fields_ok ch mode c d fields allowed in
    record {
      allowed = allowed;
      not_blank = ap is_blank t.content ∙ text;
      same_text = t;
      names =
          subst (AreVariables []) (sym t.variables)
            (check_variables-AreVariables [] c.variables vars);
      used = λ e. (check_placeholders_iff d).0 (check_custom_ok json ch d d (own e)).1;
      request = q;
      sample = λ e. (check_custom_ok json ch d d (own e)).2;
    }
