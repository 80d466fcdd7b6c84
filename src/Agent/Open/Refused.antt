-- ===== src/Agent/Open/Refused.antt =====
-- A run of the agent that ends before its first announcement.
use lan_nickname.Agent.Announce.{Announcer, Local}
use lan_nickname.Agent.Flush.{Setting, Clock, Log}
use lan_nickname.Agent.HostKey
use lan_nickname.Agent.HostKey.{load_host_key, key_of, named}
use lan_nickname.Agent.Machine.{Input}
use lan_nickname.Agent.Open.{
  Error, Opened, refused, keyed, host_key, open_agent, opened_run, run_agent, bad_options,
  not_loaded, no_socket, no_broadcasts, no_multicast_ttl, no_loopback,
}
use lan_nickname.Agent.{Settings, check_settings}
use lan_nickname.Base.{
  ℕ, ◌-◌, List, [], ◌∷◌, Option, Result, ok, err, Bytes, codes, ◌≡◌, sym, ◌∙◌, ap,
}
use lan_nickname.Config.Load.{Place}
use lan_nickname.Files.Quiet.{
  IsQuiet, pure-IsQuiet, from_result-IsQuiet, wrap-IsQuiet, call-IsQuiet, >>=-IsQuiet,
  read_file-IsQuiet, raise-IsQuiet,
}
use lan_nickname.Files.{
  World, Call, Io, ◌>>◌, pure, from_result, wrap, call, asking, Read, contents, missing, failed,
  read_file,
}
use lan_nickname.Protocol.HostKey.{parse_key}
use lan_nickname.Store.Cache
use lan_nickname.Store.Cache.{SnapshotJson, load, decoded, load_read, found_place}
use lan_nickname.Store.{Store, prune, new_store}

keyed-IsQuiet : (m : Io HostKey.Error Bytes) → IsQuiet m → IsQuiet (λ w. keyed (m w))
keyed-IsQuiet m h = record { unchanged = λ w. kept w (m w) (h.unchanged w) }
  where
    kept :
        (w : World) (r : Result HostKey.Error Bytes × World)
        → r.1.files ≡ w.files
        → (keyed r).1.files ≡ w.files
    kept w (ok key, v) e = e
    kept w (err f, v) e = e

key_of-IsQuiet :
    (path : Bytes) (rest : Io HostKey.Error Bytes) (r : Read)
    → IsQuiet rest
    → IsQuiet (key_of path rest r)
unfolding key_of
key_of-IsQuiet path rest missing h = h
key_of-IsQuiet path rest failed h = raise-IsQuiet (HostKey.read_failed path)
key_of-IsQuiet path rest (contents s) h = from_result-IsQuiet (named path (parse_key s))

load_host_key-IsQuiet : (paths : List Bytes) → IsQuiet (load_host_key paths)
unfolding load_host_key
load_host_key-IsQuiet [] = pure-IsQuiet []
load_host_key-IsQuiet (path ∷ paths) =
    >>=-IsQuiet (read_file path) (key_of path (load_host_key paths))
      (read_file-IsQuiet HostKey.Error path)
      (λ r. key_of-IsQuiet path (load_host_key paths) r (load_host_key-IsQuiet paths))

load_read-IsQuiet :
    (J : SnapshotJson) (place : Option Place) (r : Read) → IsQuiet (load_read J place r)
unfolding load_read
load_read-IsQuiet J place missing = pure-IsQuiet new_store
load_read-IsQuiet J place failed = raise-IsQuiet Cache.read_failed
load_read-IsQuiet J place (contents s) = from_result-IsQuiet (decoded (J.unmarshal s))

load-IsQuiet : (J : SnapshotJson) (place : Option Place) → IsQuiet (load J place)
unfolding load
load-IsQuiet J place =
    >>=-IsQuiet (from_result (found_place place)) _ (from_result-IsQuiet (found_place place)) (λ p.
      >>=-IsQuiet (read_file p.path) (load_read J place) (read_file-IsQuiet Cache.Error p.path)
        (load_read-IsQuiet J place))

-- A call in front of what touches no file.
then-IsQuiet :
    {A : Type 0} (c : Call) (e : Error) (next : Io Error A)
    → IsQuiet next
    → IsQuiet (call c e >> next)
then-IsQuiet c e next h = >>=-IsQuiet (call c e) (λ _. next) (call-IsQuiet c e) (λ _. h)

open_agent-IsQuiet :
    (o : Settings) (E : Setting) (paths : List Bytes) (now : ℕ) → IsQuiet (open_agent o E paths now)
unfolding open_agent
open_agent-IsQuiet o E paths now =
    >>=-IsQuiet (wrap bad_options (from_result (check_settings o))) _
      (wrap-IsQuiet bad_options (from_result (check_settings o))
        (from_result-IsQuiet (check_settings o)))
      (λ _.
        >>=-IsQuiet (host_key paths) _
          (keyed-IsQuiet (load_host_key paths) (load_host_key-IsQuiet paths))
          (λ found.
            >>=-IsQuiet (wrap not_loaded (load E.json E.cache)) _
              (wrap-IsQuiet not_loaded (load E.json E.cache) (load-IsQuiet E.json E.cache))
              (λ peers. ready found peers)))
  where
    ready :
        (found : Bytes × List Log) (peers : Store)
        → IsQuiet {E = Error} {A = Opened} (
            call (asking (codes "ListenUDP")) no_socket
            >> (call (asking (codes "enableBroadcast")) no_broadcasts
                >> (call (asking (codes "SetMulticastTTL")) no_multicast_ttl
                    >> (call (asking (codes "SetMulticastLoopback")) no_loopback
                        >> pure (record {
                          peers = prune (now - E.ttl) peers;
                          key = found.0;
                          log = found.1;
                        })))))
    ready found peers = then-IsQuiet (asking (codes "ListenUDP")) no_socket _ (
        then-IsQuiet (asking (codes "enableBroadcast")) no_broadcasts _ (
          then-IsQuiet (asking (codes "SetMulticastTTL")) no_multicast_ttl _ (
            then-IsQuiet (asking (codes "SetMulticastLoopback")) no_loopback _ (
              pure-IsQuiet
                (record { peers = prune (now - E.ttl) peers; key = found.0; log = found.1 })))))

-- However the system answers, a run that is refused, for its options, for its cache or for its socket, has
-- changed no file.
pub refused_files :
    (A : Announcer) (E : Setting) (l : Local) (c : Clock) (es : List Input) (o : Settings)
    (paths : List Bytes) (now : ℕ) (w v : World) (e : Error)
    → run_agent A E l c es o paths now w ≡ refused e v
    → v.files ≡ w.files
unfolding run_agent
refused_files A E l c es o paths now w v e h =
    from_refused (open_agent o E paths now w) h ∙ (open_agent-IsQuiet o E paths now).unchanged w
  where
    from_refused :
        (r : Result Error Opened × World)
        → opened_run A E l c es r ≡ refused e v
        → v.files ≡ r.1.files
    from_refused (err f, x) q = let same : x ≡ v = cc in ap (λ (y : World). y.files) (sym same)
    from_refused (ok opened, x) q = cc
