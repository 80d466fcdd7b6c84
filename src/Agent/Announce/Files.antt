-- ===== src/Agent/Announce/Files.antt =====
-- An announcement touches only the file of the settings.
use lan_nickname.Agent.Announce.{
  join_group, joining, join_groups, send_multicast, send_broadcast, if_set, group_address,
  Announcing, announce_on, announce_all, Announcer, Local, with_config, with_interfaces, encoded,
  announcement_of, interfaces_of, advertise_on, has, address_of,
}
use lan_nickname.Agent.{Failure}
use lan_nickname.Base.Dict.{lookup}
use lan_nickname.Base.{
  ℕ, ◌+◌, List, [], ◌∷◌, ◌++◌, ◌≡◌, ◌≢◌, refl, sym, ◌∙◌, ap, subst, Option, some, Result, ok, err,
  Bytes, codes, Bool-cases, inl, inr,
}
use lan_nickname.Config.Load.Files.{load_or_create-Spares}
use lan_nickname.Config.Load.{LoadError, Place, load_or_create}
use lan_nickname.Config.State.{temporary_of}
use lan_nickname.Config.{Config}
use lan_nickname.Files.Quiet.{call-IsQuiet}
use lan_nickname.Files.{World, call, asking, sending}
use lan_nickname.Network.{Joined}
use lan_nickname.Protocol
use lan_nickname.Protocol.{Announcement, encode}
use lan_nickname.Store.{Store}

joining-files :
    (index : ℕ) (name : Bytes) (joined : List ℕ) (r : Result (Unit {0}) (Unit {0}) × World)
    → (joining index name joined r).1.files ≡ r.1.files
joining-files index name joined (ok _, w) = refl
joining-files index name joined (err _, w) = refl

join_group-files :
    (i : Joined) (joined : List ℕ) (w : World) → (join_group i joined w).1.files ≡ w.files
unfolding join_group
join_group-files i joined w =
    let c = call (asking (codes "JoinGroup " ++ i.interface.name)) tt in
    elim (Bool-cases (has i.interface.index joined)) [
      | inl old ↦ rw old refl
      | inr new ↦ rw new (
          joining-files i.interface.index i.interface.name joined (c w)
          ∙ (call-IsQuiet (asking (codes "JoinGroup " ++ i.interface.name)) tt).unchanged w)
    ]

pub join_groups-files :
    (is : List Joined) (joined : List ℕ) (w : World) → (join_groups is joined w).1.files ≡ w.files
unfolding join_groups
join_groups-files [] joined w = refl
join_groups-files (i ∷ is) joined w =
    let first = join_group i joined w in
    join_groups-files is first.0.0 first.1 ∙ join_group-files i joined w

if_set-files :
    (payload : Bytes) (r : Result (Unit {0}) (Unit {0}) × World)
    → (if_set payload r).1.files ≡ r.1.files
if_set-files payload (ok _, w) = (call-IsQuiet (sending group_address payload) tt).unchanged w
if_set-files payload (err _, w) = refl

announce_on-files :
    (text : Bytes → Bytes) (a : Announcement) (payload : Bytes) (now : ℕ) (i : Joined)
    (s : Announcing)
    → (announce_on text a payload now i s).world.files ≡ s.world.files
unfolding announce_on send_multicast send_broadcast
announce_on-files text a payload now i s =
    let setting = asking (codes "SetMulticastInterface " ++ i.interface.name) in
    (call-IsQuiet (sending (address_of i.broadcast) payload) tt).unchanged
      (send_multicast payload i s.world).1
    ∙ if_set-files payload (call setting tt s.world)
    ∙ (call-IsQuiet setting tt).unchanged s.world

announce_all-files :
    (text : Bytes → Bytes) (a : Announcement) (payload : Bytes) (clock : ℕ → ℕ) (k : ℕ)
    (is : List Joined) (s : Announcing)
    → (announce_all text a payload clock k is s).world.files ≡ s.world.files
unfolding announce_all
announce_all-files text a payload clock k [] s = refl
announce_all-files text a payload clock k (i ∷ is) s =
    announce_all-files text a payload clock (k + 1) is (announce_on text a payload (clock k) i s)
    ∙ announce_on-files text a payload (clock k) i s

module _ (A : Announcer) (l : Local) where
  encoded-files :
      (a : Announcement) (locals : List Joined) (joined : List ℕ) (s : Announcing)
      (m : Result Protocol.Error Bytes)
      → (encoded A l a locals joined s m).world.files ≡ s.world.files
  encoded-files a locals joined s (ok payload) =
      announce_all-files A.ip_text a payload l.clock 0 locals s
  encoded-files a locals joined s (err e) = refl

  interfaces-files :
      (cfg : Config) (r : Result Failure (List Joined)) (peers : Store) (joined : List ℕ)
      (w : World)
      → (with_interfaces A l cfg r peers joined w).world.files ≡ w.files
  interfaces-files cfg (ok locals) peers joined w =
      let j = join_groups locals joined w in
      encoded-files (announcement_of A l cfg) locals j.0.0
        (record { peers = peers; log = j.0.1; world = j.1 })
        (encode A.unicode A.json (announcement_of A l cfg))
      ∙ join_groups-files locals joined w
  interfaces-files cfg (err e) peers joined w = refl

  config-files :
      (peers : Store) (joined : List ℕ) (r : Result LoadError Config × World)
      → (with_config A l peers joined r).world.files ≡ r.1.files
  config-files peers joined (ok cfg, w) =
      interfaces-files cfg (interfaces_of A.cidr l.listed) peers joined w
  config-files peers joined (err e, w) = refl

  pub advertise_on-others :
      (p : Place) (j : Bytes) (peers : Store) (joined : List ℕ) (w : World)
      → A.settings ≡ some p
      → j ≢ p.path
      → j ≢ temporary_of p.path
      → lookup j (advertise_on A l peers joined w).world.files ≡ lookup j w.files
  unfolding advertise_on
  advertise_on-others p j peers joined w placed np nt =
      let loaded =
        λ (o : Option Place). load_or_create A.settings_json A.system o l.host l.random w in
      ap (λ d. lookup j d) (config-files peers joined (loaded A.settings))
      ∙ subst (λ o. lookup j (loaded o).1.files ≡ lookup j w.files) (sym placed)
          ((load_or_create-Spares A.settings_json A.system p j np nt l.host l.random).kept w)
