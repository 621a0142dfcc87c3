-- ===== src/Proxy/Expand/Consistency.antt =====
-- The check of an expanded context against the context of the user agent (server/proxy/expand.go).
use mattermost_plugin_apps.Base.{
  Str, Bool, true, false, not, ◌&&◌, ◌||◌, List, [], ◌∷◌, Result, ok, err, other, Option, none,
  some, is_empty, ◌==◌,
}
use mattermost_plugin_apps.Apps.Context.{UserAgentContext}
use mattermost_plugin_apps.Apps.Entities.{
  ChannelType, direct, group, other_type, Channel, ChannelMember, TeamMember, Post,
}
use mattermost_plugin_apps.Proxy.Expand.{ExpandedContext}

-- `consistencyCheck`, in four parts. The user of a team member that is refused is printed from the
-- channel member; where there is none this panics, which counts as an error here.
abbrev pub check_if : Bool → Result (Unit {0})
check_if true = err other
check_if false = ok tt

abbrev pub differs_if_given : Str → Str → Bool
differs_if_given given s = not (is_empty given) && not (s == given)

abbrev pub is_direct_or_group : ChannelType → Bool
is_direct_or_group direct = true
is_direct_or_group group = true
is_direct_or_group other_type = false

abbrev pub check_post : UserAgentContext → Option Post → Result (Unit {0})
check_post uac none = ok tt
check_post uac (some post) = check_if (differs_if_given uac.channel_id post.channel_id)

abbrev pub check_channel : UserAgentContext → Option Channel → Result (Unit {0})
check_channel uac none = ok tt
check_channel uac (some channel) =
    check_if (not (is_direct_or_group channel.type) && differs_if_given uac.team_id channel.team_id)

-- A member must be the acting user or the user of the notification, if there is one.
abbrev pub is_stranger : Str → UserAgentContext → Str → Bool
is_stranger acting uac user_id =
    not (is_empty uac.user_id) && not (user_id == acting) && not (user_id == uac.user_id)

abbrev pub check_channel_member : Str → UserAgentContext → Option ChannelMember → Result (Unit {0})
check_channel_member acting uac none = ok tt
check_channel_member acting uac (some member) =
    check_if
      (differs_if_given uac.channel_id member.channel_id || is_stranger acting uac member.user_id)

abbrev pub check_team_member : Str → UserAgentContext → Option TeamMember → Result (Unit {0})
check_team_member acting uac none = ok tt
check_team_member acting uac (some member) =
    check_if (differs_if_given uac.team_id member.team_id || is_stranger acting uac member.user_id)

unfoldable pub consistency_check :
    Str → UserAgentContext → ExpandedContext → List (Result (Unit {0}))
consistency_check acting uac x =
    check_post uac x.post
    ∷ check_channel uac x.channel
    ∷ check_channel_member acting uac x.channel_member
    ∷ check_team_member acting uac x.team_member
    ∷ []

-- The first error of a list of checks.
unfoldable pub all_of : List (Result (Unit {0})) → Result (Unit {0})
all_of [] = ok tt
all_of (ok t ∷ checks) = all_of checks
all_of (err e ∷ checks) = err e
