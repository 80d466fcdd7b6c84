-- ===== src/Ssh/Trust.antt =====
-- Which peers are trusted.
use mathlib.Core.Bool.{Bool-set, false≢true}
use mathlib.Core.HLevel.{×_prop}
use mathlib.Core.List.Perm
use mathlib.Core.List.{Mem, Mem-prop, mem-cons, not-mem-nil}
use mathlib.Core.Logic.Or
use lan_nickname.Base.{
  ℕ, Bool, true, false, not, ◌||◌, List, [], ◌∷◌, Result, ok, err, ◌≡◌, ◌≢◌, refl, sym, ap, ◌∙◌,
  inl, inr, ◌↔◌, Bool-cases, arith, ◌==◌, Bytes, length, is_empty, if◌then◌else◌,
}
use lan_nickname.Config.{is_id}
use lan_nickname.Protocol.HostKey.{validate_key}
use lan_nickname.Store.{Peer, Snapshot}
use lan_nickname.Store.Order.{sort-perm}
use lan_nickname.Ssh.{
  count_alias, valid_machine_id, is_trusted, select, alias_lt, trusted_peers, succeeds,
}

-- A peer that may be trusted: no other of the snapshot has its alias, its identifier is well formed,
-- and it has a valid key.
pub record IsTrusted (all : List Peer) (p : Peer) : Type 0 where
  pub sole : count_alias p.alias_name all ≡ 1
  pub identified : is_id p.id ≡ true
  pub has_key : p.host_key ≢ []
  pub valid_key : validate_key p.host_key ≡ ok tt

gate :
    (n : ℕ) (e i v : Bool)
    → ((if not (n == 1) || e || not i then false else v) ≡ true)
      ↔ ((n ≡ 1) × (e ≡ false) × (i ≡ true) × (v ≡ true))
gate n e i v = (ground arith, ground arith)

valid_machine_id-is_id : (id : Bytes) → valid_machine_id id ≡ is_id id
unfolding valid_machine_id is_id
valid_machine_id-is_id id = elim (Bool-cases (length id == 32)) [
  | inl e ↦ rw e refl
  | inr e ↦ rw e refl
]

succeeds_iff : {E : Type 0} (m : Result E (Unit {0})) → (succeeds m ≡ true) ↔ (m ≡ ok tt)
succeeds_iff (ok _) = (λ h. refl, λ h. refl)
succeeds_iff (err e) = (λ h. cc, λ h. cc)

is_empty_iff : (s : Bytes) → (is_empty s ≡ false) ↔ (s ≢ [])
is_empty_iff [] = (λ h. cc, λ h. absurd (h refl))
is_empty_iff (c ∷ s) = (λ h e. cc, λ h. refl)

pub is_trusted-IsTrusted :
    (all : List Peer) (p : Peer) → (is_trusted all p ≡ true) ↔ IsTrusted all p
is_trusted-IsTrusted all p =
    let test =
      gate (count_alias p.alias_name all) (is_empty p.host_key) (valid_machine_id p.id)
        (succeeds (validate_key p.host_key)) in
    (
      λ h.
          let (sole, key, id, valid) = test.0 (unfold is_trusted in h) in
          record {
            sole = sole;
            identified = sym (valid_machine_id-is_id p.id) ∙ id;
            has_key = (is_empty_iff p.host_key).0 key;
            valid_key = (succeeds_iff (validate_key p.host_key)).0 valid;
          },
      λ t.
          unfold is_trusted in
          test.1 (
            t.sole,
            (is_empty_iff p.host_key).1 t.has_key,
            valid_machine_id-is_id p.id ∙ t.identified,
            (succeeds_iff (validate_key p.host_key)).1 t.valid_key,
          ),
    )

mem-select :
    (all ps : List Peer) (p : Peer) → Mem p (select all ps) ↔ (Mem p ps × (is_trusted all p ≡ true))
unfolding select
mem-select all [] p = (λ m. absurd (not-mem-nil m), λ m. absurd (not-mem-nil m.0))
mem-select all (q ∷ ps) p =
    let ih = mem-select all ps p in
    elim (Bool-cases (is_trusted all q)) [
      | inl e ↦ rw e (
        λ m.
            Or.elim (×_prop Mem-prop (Bool-set _ _)) (mem-cons.0 m)
              (λ same. (mem-cons.1 (Or.inl same), ap (is_trusted all) same ∙ e))
              (λ later. (mem-cons.1 (Or.inr (ih.0 later).0), (ih.0 later).1)),
        λ (m, t).
            Or.elim Mem-prop (mem-cons.0 m) (λ same. mem-cons.1 (Or.inl same))
              (λ later. mem-cons.1 (Or.inr (ih.1 (later, t)))),
      )
      | inr e ↦ rw e (
        λ m. (mem-cons.1 (Or.inr (ih.0 m).0), (ih.0 m).1),
        λ (m, t).
            Or.elim Mem-prop (mem-cons.0 m)
              (λ same. absurd (false≢true (sym e ∙ ap (is_trusted all) (sym same) ∙ t)))
              (λ later. ih.1 (later, t)),
      )
    ]

-- The trusted peers are exactly the snapshot's peers that may be trusted.
pub mem-trusted_peers :
    (snapshot : Snapshot) (p : Peer)
    → Mem p (trusted_peers snapshot) ↔ (Mem p snapshot.peers × IsTrusted snapshot.peers p)
mem-trusted_peers snapshot p =
    let sorted = Perm.mem_iff (sort-perm alias_lt (select snapshot.peers snapshot.peers)) in
    let chosen = mem-select snapshot.peers snapshot.peers p in
    let trust = is_trusted-IsTrusted snapshot.peers p in
    (
      λ m. let (there, t) = chosen.0 (sorted.0 (unfold trusted_peers in m)) in (there, trust.0 t),
      λ (m, t). unfold trusted_peers in sorted.1 (chosen.1 (m, trust.1 t)),
    )
