-- ===== src/Notify/Template/Tests.antt =====
-- A webhook that greets a user.
use fp.Common.{String, true, false, [], ◌∷◌, ◌≡◌, refl}
use fp.Common.GoMap.{GoMap}
use fp.Notify.Template.Placeholders.{
  is_ident, is_blank, all_names, name_at, name_rest, starts_name, continues_name, all_continue,
  is_space,
}
use fp.Notify.Template.{
  NotifyContent, webhook, custom, accepted, check_placeholders, used_names, extract_placeholders,
  first_uses, validate_content, valid_channel, allows_mode, is_custom, is_webhook, is_filled,
  check_variables, check_fields, reject_unsupported, first_unsupported, present_fields,
  check_webhook, check_post, finish, check_custom,
}
use fp.Notify.Template.Content.{IsTemplate, validate_content_ok}

abbrev greeting : NotifyContent
greeting = record {
  subject = "";
  content = "{\"to\": \"{name}\"}";
  content_type = "";
  method = "";
  variables = "name" ∷ [];
  mentioned_list = [];
  mentioned_mobile_list = [];
  at_mobiles = [];
  is_at_all = false;
}

abbrev completed : NotifyContent
completed = record greeting { method = "POST"; content_type = "application/json" }

greeting_is_accepted : validate_content (λ _. true) webhook custom greeting ≡ accepted completed
unfolding validate_content valid_channel allows_mode is_custom is_blank is_space check_variables
    is_ident all_continue starts_name continues_name check_fields reject_unsupported
    first_unsupported present_fields is_filled check_webhook check_post finish check_custom
    is_webhook check_placeholders used_names extract_placeholders first_uses all_names name_at
    name_rest
greeting_is_accepted = refl

validate_content_ok_example : IsTemplate (λ _. true) webhook custom greeting completed
validate_content_ok_example =
    validate_content_ok (λ _. true) webhook custom greeting completed greeting_is_accepted

abbrev values : GoMap String
values = ("name", "Ann") ∷ []
