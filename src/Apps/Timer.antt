-- ===== src/Apps/Timer.antt =====
-- Timers of apps, and their validation (apps/timer.go).
use mattermost_plugin_apps.Base.{
  Str, Bool, ℕ, ◌+◌, ◌*◌, [], ◌∷◌, ◌++◌, invalid, if◌then◌else◌, ltb, leb, bytes, ◌≡◌, refl, none,
  some,
}
use mattermost_plugin_apps.Apps.Call.{Call, is_empty_call}
use mattermost_plugin_apps.Apps.Event.{Problems}

-- A time before the epoch is taken as the epoch, which is refused as well.
pub record Timer : Type 0 where
  pub at : ℕ
  pub call : Call
  pub channel_id : Str
  pub team_id : Str

abbrev invalid_if : Bool → Problems
invalid_if b = if b then invalid ∷ [] else []

-- `Timer.Validate`, at a time in nanoseconds; `at` is in milliseconds.
unfoldable pub validate : ℕ → Timer → Problems
validate now t =
    invalid_if (is_empty_call t.call)
    ++ invalid_if (leb t.at 0)
    ++ invalid_if (ltb (t.at * 1000000) (now + 1000000000))

-- A call with a state and without a path.
abbrev pathless : Timer
pathless = record {
  at = 5000;
  call = record { path = []; expand = none; state = some (bytes "1") };
  channel_id = [];
  team_id = [];
}

validate-pathless : validate 1000000 pathless ≡ []
unfolding validate is_empty_call
validate-pathless = refl
