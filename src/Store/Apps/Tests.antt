-- ===== src/Store/Apps/Tests.antt =====
-- The app store on a server in memory.
use mattermost_plugin_apps.Base.{Str, bytes, true, ◌≡◌, refl, ok, none, some, if◌then◌else◌, ◌==◌}
use mattermost_plugin_apps.Base.Assoc.{lookup, insert, remove}
use mattermost_plugin_apps.Store.AppMaps
use mattermost_plugin_apps.Store.AppMaps.{AppMaps}
use mattermost_plugin_apps.Store.Apps.{save, delete, skip_value, as_map}
use mattermost_plugin_apps.Store.Apps.Coherence.{IsCoherent}
use mattermost_plugin_apps.Store.Apps.Saving.{save-IsCoherent, versioned}
use mattermost_plugin_apps.Store.Apps.Deleting.{delete-IsCoherent}
use mattermost_plugin_apps.Store.Apps.Listing.{get-as_map, found}
use mattermost_plugin_apps.Store.Apps.Sample.{
  kv, laws, conf, config_laws, hash, hash_laws, sample, empty, empty-IsCoherent, saved, full,
  full-IsCoherent,
}

save-IsCoherent_example :
    IsCoherent kv laws conf hash full
    × ((id : Str)
        → lookup id full.maps.installed ≡ (
            if sample.app_id == id
            then some (versioned kv laws conf config_laws hash hash_laws (bytes "v2") sample)
            else lookup id empty.maps.installed))
save-IsCoherent_example =
    save-IsCoherent kv laws conf config_laws hash hash_laws (bytes "v2") sample empty
      empty-IsCoherent saved

deleted : (delete kv conf (bytes "app1") full).0 ≡ ok tt
unfolding delete save insert remove skip_value lookup ◌==◌
deleted = refl

delete-IsCoherent_example :
    IsCoherent kv laws conf hash (delete kv conf (bytes "app1") full).1
    × ((j : Str)
        → lookup j (delete kv conf (bytes "app1") full).1.maps.installed
          ≡ (if bytes "app1" == j then none else lookup j full.maps.installed))
delete-IsCoherent_example =
    delete-IsCoherent kv laws conf config_laws hash hash_laws (bytes "app1") full full-IsCoherent
      deleted

get-as_map_example :
    AppMaps.get full.maps (bytes "app1") ≡ found (lookup (bytes "app1") (as_map true full.maps))
get-as_map_example = get-as_map full.maps (bytes "app1")
