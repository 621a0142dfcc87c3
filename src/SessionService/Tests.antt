-- ===== src/SessionService/Tests.antt =====
-- A session that is about to expire is extended.
use mattermost_plugin_apps.Base.{bytes, false, ◌≡◌, refl, sym, ap, ok, err, other, none, ◌==◌, []}
use mattermost_plugin_apps.Base.Assoc.{lookup, insert}
use mattermost_plugin_apps.Incoming.{Request, Directory}
use mattermost_plugin_apps.Store.Kv.Memory.{Memory, memory, memory_laws}
use mattermost_plugin_apps.Store.Sessions
use mattermost_plugin_apps.Store.Sessions.{Session}
use mattermost_plugin_apps.SessionService.{
  SessionServer, NewSession, get_or_create, extend_if_needed,
}
use mattermost_plugin_apps.SessionService.Validity.{get_or_create-IsGood, IsGood}

abbrev server : SessionServer (Memory Session)
server = record {
  now = λ s. 1000000000000;
  roles = λ u. [];
  is_expired = λ session s. false;
  create = λ new s. (
    ok (record { id = bytes "n"; user_id = new.user_id; token = []; expires_at = new.expires_at }),
    s,
  );
  extend_expiry = λ id t s. (ok tt, s);
}

abbrev directory : Directory
directory = record {
  can_manage_system = λ id. false;
  can_view_members = λ id. false;
  can_read_channel = λ id c. false;
  can_view_team = λ id t. false;
  can_list_team_channels = λ id t. false;
  user = λ id. err other;
  session_app_id = λ id. err other;
}

abbrev request : Request
request = record {
  acting_user_id = bytes "ann";
  destination = bytes "app1";
  session_id = [];
  source_app_id = [];
  source_plugin_id = [];
  acting_user = none;
}

abbrev old : Session
old = record { id = bytes "s1"; user_id = bytes "ann"; token = bytes "t"; expires_at = 1000001 }

abbrev extended : Session
extended = record {
  id = bytes "s1";
  user_id = bytes "ann";
  token = bytes "t";
  expires_at = 1600000;
}

abbrev stored : Memory Session
stored = (Sessions.save memory (bytes "app1") (bytes "ann") old (false, [])).1

extends :
    (get_or_create memory server directory (λ id s. err other) request (bytes "ann") stored).0
    ≡ ok extended
unfolding get_or_create extend_if_needed Sessions.get Sessions.save lookup insert ◌==◌
extends = refl

create_keeps_expiry :
    (new : NewSession) (s : Memory Session) (session : Session)
    → (server.create new s).0 ≡ ok session
    → session.expires_at ≡ new.expires_at
create_keeps_expiry new s session h =
    let same : record {
      id = bytes "n";
      user_id = new.user_id;
      token = [];
      expires_at = new.expires_at;
    }
        ≡ session =
      cc h in
    sym (ap (λ (x : Session). x.expires_at) same)

get_or_create-IsGood_example :
    IsGood memory memory_laws server directory
      (λ id s. err other)
      create_keeps_expiry
      (bytes "app1")
      (bytes "ann")
      extended
      stored
      (get_or_create memory server directory (λ id s. err other) request (bytes "ann") stored).1
get_or_create-IsGood_example =
    get_or_create-IsGood memory memory_laws server directory (λ id s. err other) create_keeps_expiry
      request (bytes "ann") extended stored extends
