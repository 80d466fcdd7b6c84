-- ===== src/Tests/Files.antt =====
-- The hosts file and the files of SSH.
use lan_nickname.Base.{
  true, false, [], ◌∷◌, ◌++◌, ◌≡◌, ◌≢◌, refl, ◌↔◌, ok, err, Bytes, codes, arith, inr,
}
use mathlib.Core.List.{Mem}
use lan_nickname.Config.Alias.{alias-IsLabel}
use lan_nickname.Config.{alias}
use lan_nickname.Hosts.{begin_marker, end_marker, render}
use lan_nickname.Hosts.Clean.{IsClean}
use lan_nickname.Hosts.Rerender.{render_again}
use lan_nickname.Managed.{incomplete_section, remove_section, render_managed}
use lan_nickname.Managed.Rerender.{IsUnmanaged, render_managed_again}
use lan_nickname.Config.Label.{IsLabel}
use lan_nickname.Ssh.{
  Action, keep, contents, missing, config_begin_marker, config_end_marker, keys_begin_marker,
  keys_end_marker, trusted_peers, Paths, sync,
}
use lan_nickname.Ssh.Sync.{IsReady, after, sync_twice, config-IsMarkers}
use lan_nickname.Ssh.Trust.{IsTrusted, mem-trusted_peers}
use lan_nickname.Text.Search.{Absent, index, contains}
use lan_nickname.Tests.Values.{ascii, net, net-PrintsPlain, peer₁, one_peer, two_peers, plain_byte}
use lan_nickname.Text.Replace.{to_lf}

abbrev pub before : Bytes
before = codes "127.0.0.1 localhost\n"

first_section :
    render net before one_peer
    ≡ ok (
        codes "127.0.0.1 localhost\n\n"
        ++ (begin_marker
            ++ (codes
                  "\n10.0.0.5\tliving-room\t# Living Room\n10.0.0.6\tliving-room\t# Living Room\n"
                ++ (end_marker ++ codes "\n"))))
unfolding render plain_byte
first_section = refl

begin_only :
    remove_section begin_marker end_marker (begin_marker ++ codes "\n10.0.0.5")
    ≡ err incomplete_section
unfolding remove_section
begin_only = refl

pub unmanaged : IsUnmanaged begin_marker end_marker before before
unfolding remove_section index contains to_lf
unmanaged = record { left = refl; no_begin = refl; no_end = refl; line_ends = inr (omega arith) }

pub peer₁-IsClean : IsClean peer₁
unfolding alias index
peer₁-IsClean = record {
  label = (alias-IsLabel ascii peer₁.nickname).0;
  one_line = omega arith;
  no_marker = refl;
}

render_again_example :
    (out : Bytes) × (render net before one_peer ≡ ok out)
    × (render net out two_peers ≡ render net before two_peers)
render_again_example =
    render_again net one_peer two_peers net-PrintsPlain unmanaged (peer₁-IsClean, tt)

outside :
    IsUnmanaged config_begin_marker config_end_marker (codes "Host nas\n") (codes "Host nas\n")
unfolding remove_section index contains to_lf
outside = record { left = refl; no_begin = refl; no_end = refl; line_ends = inr (omega arith) }

body-Absent : Absent (codes "Host a\n") config_end_marker
unfolding index
body-Absent = refl

render_managed_again_example :
    (out : Bytes) × (render_managed
        (codes "Host nas\n")
        config_begin_marker
        config_end_marker
        (codes "Host a\n")
        true
      ≡ ok out)
    × (render_managed out config_begin_marker config_end_marker [] false
        ≡ render_managed (codes "Host nas\n") config_begin_marker config_end_marker [] false)
render_managed_again_example =
    render_managed_again config-IsMarkers b'H' (codes "ost a\n") [] true false outside body-Absent
      (omega arith)

trusted : trusted_peers two_peers ≡ peer₁ ∷ []
unfolding trusted_peers
trusted = refl

mem-trusted_peers_example :
    Mem peer₁ (trusted_peers two_peers)
    ↔ (Mem peer₁ two_peers.peers × IsTrusted two_peers.peers peer₁)
mem-trusted_peers_example = mem-trusted_peers two_peers peer₁

config_IsReady : IsReady config_begin_marker config_end_marker (contents (codes "Host nas\n"))
config_IsReady = record { readable = refl; outside = codes "Host nas\n"; unmanaged = outside }

keys_IsReady : IsReady keys_begin_marker keys_end_marker missing
unfolding remove_section index contains to_lf
keys_IsReady = record {
  readable = refl;
  outside = [];
  unmanaged = record { left = refl; no_begin = refl; no_end = refl; line_ends = inr tt };
}

abbrev paths : Paths
paths = record {
  config = codes "/etc/ssh/ssh_config";
  known_hosts = codes "/etc/ssh/lan-nick";
  null_device = codes "/dev/null";
}

peer₁-IsLabel : IsLabel peer₁.alias_name
unfolding alias
peer₁-IsLabel = (alias-IsLabel ascii peer₁.nickname).0

some_trusted : trusted_peers one_peer ≢ []
unfolding trusted_peers
some_trusted e = cc

sync_twice_example :
    (a b : Action) × (sync (λ s. s) paths missing (contents (codes "Host nas\n")) one_peer
      ≡ ok (a, b))
    × (sync (λ s. s) paths (after missing a) (after (contents (codes "Host nas\n")) b) one_peer
        ≡ ok (keep, keep))
sync_twice_example =
    sync_twice (λ s. s) paths missing (contents (codes "Host nas\n")) one_peer refl (omega arith)
      (omega arith) keys_IsReady config_IsReady (peer₁-IsLabel, tt) some_trusted
