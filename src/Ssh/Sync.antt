-- ===== src/Ssh/Sync.antt =====
-- Synchronising the SSH files again.
use lan_nickname.Base.{
  ℕ, Bool, true, false, List, [], ◌∷◌, ok, ◌≡◌, ◌≢◌, refl, ◌∙◌, inl, inr, arith, Bytes, All,
  All-map, equal, equal_iff, if◌then◌else◌, Bool-cases,
}
use lan_nickname.Config.Label.{IsLabel}
use lan_nickname.Managed.Rerender.{IsUnmanaged, rerender}
use lan_nickname.Managed.Section.{IsMarkers}
use lan_nickname.Managed.{render_managed}
use lan_nickname.Store.{Peer, Snapshot}
use lan_nickname.Ssh.Plain.{
  IsPlain, trusted_peers-IsWritable, render_config-IsPlain, render_known_hosts-IsPlain,
}
use lan_nickname.Ssh.{
  Action, keep, replace, Read, contents, missing, failed, unreadable, compare_texts, text_of,
  plan_file, config_begin_marker, config_end_marker, keys_begin_marker, keys_end_marker, Paths,
  no_paths, sync, trusted_peers, render_known_hosts, render_config,
}
use lan_nickname.Text.Search.{Absent, Free, Absent-Free, index}

-- The markers without their first byte.
abbrev pub tail_of : Bytes → Bytes
tail_of [] = []
tail_of (c ∷ s) = s

pub config-IsMarkers : IsMarkers b'#' (tail_of config_begin_marker) (tail_of config_end_marker)
unfolding index
config-IsMarkers = record {
  begin_once = omega arith;
  end_once = omega arith;
  begin_line = omega arith;
  end_line = omega arith;
  begin_cr = omega arith;
  end_cr = omega arith;
  apart = refl;
}

keys-IsMarkers : IsMarkers b'#' (tail_of keys_begin_marker) (tail_of keys_end_marker)
unfolding index
keys-IsMarkers = record {
  begin_once = omega arith;
  end_once = omega arith;
  begin_line = omega arith;
  end_line = omega arith;
  begin_cr = omega arith;
  end_cr = omega arith;
  apart = refl;
}

-- The file after what is done with it.
abbrev pub after : Read → Action → Read
after r keep = r
after r (replace s) = contents s

-- The file can be read, and what is not managed of it is text without markers.
pub record IsReady (begin end : Bytes) (r : Read) : Type 0 where
  pub readable : unreadable r ≡ false
  pub outside : Bytes
  pub unmanaged : IsUnmanaged begin end (text_of r) outside

text_of-after :
    (r : Read) (out : Bytes)
    → text_of (after r (if equal (text_of r) out then keep else replace out)) ≡ out
text_of-after r out = elim (Bool-cases (equal (text_of r) out)) [
  | inl e ↦ rw e ((equal_iff (text_of r) out).0 e)
  | inr e ↦ rw e refl
]

after-readable :
    (r : Read) (b : Bool) (out : Bytes)
    → unreadable r ≡ false
    → unreadable (after r (if b then keep else replace out)) ≡ false
after-readable r true out h = h
after-readable r false out h = refl

plan_file_lem :
    (r : Read) (begin end : Bytes) (y : ℕ) (body : Bytes) (p : Bool)
    → unreadable r ≡ false
    → plan_file r begin end (y ∷ body) p
      ≡ compare_texts (text_of r) (render_managed (text_of r) begin end (y ∷ body) p)
unfolding plan_file
plan_file_lem (contents s) begin end y body p h = refl
plan_file_lem missing begin end y body p h = refl
plan_file_lem failed begin end y body p h = cc

plain-hash : (s : Bytes) → All IsPlain s → Free b'#' s
plain-hash s = All-map (λ c h. h.0) s

plain-cr : (s : Bytes) → All IsPlain s → Free b'\r' s
plain-cr s = All-map (λ c h. h.1) s

compare_same : (out : Bytes) → compare_texts out (ok out) ≡ ok keep
unfolding compare_texts
compare_same out = let same : equal out out ≡ true = (equal_iff out out).1 refl in rw same refl

module _ {bt et : Bytes} (m : IsMarkers b'#' bt et) where
  -- A body is written; from then on the file renders as it would have without that body, and writing
  -- the same body again changes nothing.
  pub plan_file_again :
      (r : Read) (y : ℕ) (body body₂ : Bytes) (p : Bool)
      → IsReady (b'#' ∷ bt) (b'#' ∷ et) r
      → All IsPlain (y ∷ body)
      → (a : Action) × (plan_file r (b'#' ∷ bt) (b'#' ∷ et) (y ∷ body) p ≡ ok a)
        × (plan_file (after r a) (b'#' ∷ bt) (b'#' ∷ et) (y ∷ body) p ≡ ok keep)
        × (render_managed (text_of (after r a)) (b'#' ∷ bt) (b'#' ∷ et) body₂ p
            ≡ render_managed (text_of r) (b'#' ∷ bt) (b'#' ∷ et) body₂ p)
  plan_file_again r y body body₂ p ready plain =
      let absent : Absent (y ∷ body) (b'#' ∷ et) =
        Absent-Free (y ∷ body) b'#' et (plain-hash (y ∷ body) plain) in
      let (out, first, again) =
        rerender m y body p ready.unmanaged absent (plain-cr (y ∷ body) plain) in
      let same = equal (text_of r) out in
      let a = if same then keep else replace out in
      let written : text_of (after r a) ≡ out = text_of-after r out in
      (
        a,
        plan_file_lem r (b'#' ∷ bt) (b'#' ∷ et) y body p ready.readable
            ∙ rw first (unfold compare_texts in refl),
        plan_file_lem (after r a) (b'#' ∷ bt) (b'#' ∷ et) y body p
              (after-readable r same out ready.readable)
            ∙ rw written (rw (again (y ∷ body) p, first) (compare_same out)),
        rw written (again body₂ p),
      )

  plan_file_idem :
      (r : Read) (body : Bytes) (p : Bool)
      → IsReady (b'#' ∷ bt) (b'#' ∷ et) r
      → All IsPlain body
      → body ≢ []
      → (a : Action) × (plan_file r (b'#' ∷ bt) (b'#' ∷ et) body p ≡ ok a)
        × (plan_file (after r a) (b'#' ∷ bt) (b'#' ∷ et) body p ≡ ok keep)
  plan_file_idem r [] p ready plain ne = absurd (ne refl)
  plan_file_idem r (y ∷ body) p ready plain ne =
      let (a, first, second, _) = plan_file_again r y body [] p ready plain in (a, first, second)

render_known_hosts-nonempty : (ps : List Peer) → ps ≢ [] → render_known_hosts ps ≢ []
unfolding render_known_hosts
render_known_hosts-nonempty [] ne = absurd (ne refl)
render_known_hosts-nonempty (p ∷ ps) ne = λ e. cc

render_config-nonempty :
    (quote : Bytes → Bytes) (paths : Paths) (ps : List Peer)
    → ps ≢ []
    → render_config quote paths ps ≢ []
unfolding render_config
render_config-nonempty quote paths [] ne = absurd (ne refl)
render_config-nonempty quote paths (p ∷ ps) ne = λ e. cc

-- Synchronising succeeds, and doing so again with the same peers writes nothing. The premises: the paths are
-- given, and those of the known hosts and of the null device hold, as quoted, no `#` and no carriage return;
-- each file can be read or is missing, a section of it is complete, its other text shows no marker, and holds
-- no carriage return unless the file has one before a newline; the aliases are host labels; some peer is
-- trusted.
pub sync_twice :
    (quote : Bytes → Bytes) (paths : Paths) (known config : Read) (snapshot : Snapshot)
    → no_paths paths ≡ false
    → All IsPlain (quote paths.known_hosts)
    → All IsPlain (quote paths.null_device)
    → IsReady keys_begin_marker keys_end_marker known
    → IsReady config_begin_marker config_end_marker config
    → All (λ p. IsLabel p.alias_name) snapshot.peers
    → trusted_peers snapshot ≢ []
    → (a b : Action) × (sync quote paths known config snapshot ≡ ok (a, b))
      × (sync quote paths (after known a) (after config b) snapshot ≡ ok (keep, keep))
unfolding sync
sync_twice quote paths known config snapshot given kp np rk rc labels ne =
    let peers = trusted_peers snapshot in
    let writable = trusted_peers-IsWritable snapshot labels in
    let (a, a₁, a₂) =
      plan_file_idem keys-IsMarkers known (render_known_hosts peers) false rk
        (render_known_hosts-IsPlain peers writable) (render_known_hosts-nonempty peers ne) in
    let (b, b₁, b₂) =
      plan_file_idem config-IsMarkers config (render_config quote paths peers) true rc
        (render_config-IsPlain quote paths kp np peers writable)
        (render_config-nonempty quote paths peers ne) in
    (a, b, rw (given, a₁, b₁) refl, rw (given, a₂, b₂) refl)
