-- ===== src/Session/Memory/Sample.antt =====
-- The policy, the application and the database that the examples share.
use fp.Common.{String, false, Bool, [], ◌∷◌, ◌==◌}
use fp.Common.Int.{pos}
use fp.Session.Policy.{SessionPolicy, Session}
use fp.Session.Memory.{Maps}
use fp.Session.Service.{Application}

abbrev pub quick : SessionPolicy
quick = record {
  idle_timeout_seconds = pos 10;
  idle_timeout_mobile_seconds = pos 0;
  max_lifetime_seconds = pos 50;
  rotate_interval_seconds = pos 20;
  extend_interval_seconds = pos 3;
  token_cache_ttl_seconds = pos 2;
}

abbrev pub shop_app : Application
shop_app = record { id = "shop"; session = quick }

abbrev pub login : String → String → String → Session
login token app id = record {
  id = id;
  token = token;
  user_id = "ann";
  app_id = app;
  first_auth_at = pos 100000;
  issued_at = pos 100000;
  last_extended_at = pos 100000;
  idle_expires_at = pos 110000;
  ip = "10.0.0.1";
  ua = "cli";
  mobile = false;
  roles = "SALES" ∷ [];
  epoch = pos 0;
}

abbrev pub ann_db : Maps
ann_db = record {
  sessions =
      ("t1", login "t1" "shop" "s1")
      ∷ ("t2", login "t2" "shop" "s1")
      ∷ ("t3", login "t3" "mail" "s2")
      ∷ [];
  members = ("ann", "t1" ∷ "t2" ∷ "t3" ∷ "gone" ∷ []) ∷ [];
  locks = [];
  rotations = [];
  epochs = [];
}

abbrev pub is_shop : Session → Bool
is_shop s = s.app_id == "shop"
