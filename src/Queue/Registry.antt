-- ===== src/Queue/Registry.antt =====
-- internal/queue/channel_registry.go. A channel is known by a number.
use llm_request_balancer.Common.{ℕ, ◌≡◌, Option, none, some, [], String, if◌then◌else◌, str_eq}
use llm_request_balancer.Common.Dict.{Dict, lookup, insert, delete, lookup-insert, lookup-delete}

abbrev pub Channel : Type 0
Channel = ℕ

pub record ChannelRegistry : Type 0 where
  pub channels : Dict Channel

unfoldable pub new_channel_registry : ChannelRegistry
new_channel_registry = record { channels = [] }

unfoldable pub register : String → Channel → ChannelRegistry → ChannelRegistry
register id ch r = record { channels = insert id ch r.channels }

-- A missing key gives the zero value, a nil channel.
unfoldable pub get : String → ChannelRegistry → Option Channel
get id r = lookup id r.channels

unfoldable pub remove : String → ChannelRegistry → ChannelRegistry
remove id r = record { channels = delete id r.channels }

unfoldable pub clear : ChannelRegistry → ChannelRegistry
clear r = record { channels = [] }

pub get-register :
    (id other : String) (ch : Channel) (r : ChannelRegistry)
    → get other (register id ch r) ≡ (if str_eq id other then some ch else get other r)
unfolding get register
get-register id other ch r = lookup-insert id other ch r.channels

pub get-remove :
    (id other : String) (r : ChannelRegistry)
    → get other (remove id r) ≡ (if str_eq id other then none else get other r)
unfolding get remove
get-remove id other r = lookup-delete id other r.channels
