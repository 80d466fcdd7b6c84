-- ===== src/Agent/HostKey.antt =====
-- internal/agent/ssh_host_key.go: the machine's SSH host key is the one of the first key file that is there.
-- `filepath.Join` is a parameter.
use lan_nickname.Base.{
  List, [], ◌∷◌, ◌≡◌, refl, ◌⊎◌, inl, inr, Option, none, some, Result, ok, err, Bytes, codes,
  is_empty, if◌then◌else◌, subst,
}
use lan_nickname.Base.Dict.{Dict, lookup}
use lan_nickname.Config.State.{System}
use lan_nickname.Files.{
  World, Io, pure, raise, ◌>>=◌, from_result, Read, contents, missing, failed, read_file, found,
}
use lan_nickname.Files.Bind.{>>=-eq-ok}
use lan_nickname.Files.Quiet.{read_file-IsQuiet, read_file-eq-ok}
use lan_nickname.Protocol.HostKey.{KeyError, parse_key}

pub data Error : Type 0 where
  read_failed : Bytes → Error
  parse_failed : Bytes → KeyError → Error

abbrev pub named : Bytes → Result KeyError Bytes → Result Error Bytes
named path (ok key) = ok key
named path (err e) = err (parse_failed path e)

-- One round of the loop, from what the rounds behind it do.
unfoldable pub key_of : Bytes → Io Error Bytes → Read → Io Error Bytes
unfolding parse_key
key_of path rest missing = rest
key_of path rest failed = raise (read_failed path)
key_of path rest (contents s) = from_result (named path (parse_key s))

unfoldable pub load_host_key : List Bytes → Io Error Bytes
unfolding read_file key_of
load_host_key [] = pure []
load_host_key (path ∷ paths) = read_file path >>= key_of path (load_host_key paths)

-- `sshHostKeyPaths`
unfoldable pub host_key_root : System → (Bytes → Bytes → Bytes) → Bytes
host_key_root S join =
    let data_dir = S.getenv (codes "ProgramData") in
    if S.windows
    then join (if is_empty data_dir then codes "C:\\ProgramData" else data_dir) (codes "ssh")
    else codes "/etc/ssh"

unfoldable pub host_key_paths : System → (Bytes → Bytes → Bytes) → List Bytes
unfolding host_key_root
host_key_paths S join =
    let root = host_key_root S join in
    join root (codes "ssh_host_ed25519_key.pub")
    ∷ join root (codes "ssh_host_ecdsa_key.pub")
    ∷ join root (codes "ssh_host_rsa_key.pub")
    ∷ []

-- The key is what the first file that is there parses to, and empty where none is.
abbrev pub IsFirst : Dict Bytes → List Bytes → Bytes → Type 0
IsFirst files [] key = key ≡ []
IsFirst files (path ∷ paths) key =
    ((lookup path files ≡ none) × IsFirst files paths key)
    ⊎ ((s : Bytes) × (lookup path files ≡ some s) × (parse_key s ≡ ok key))

named-eq-ok :
    (path : Bytes) (r : Result KeyError Bytes) {key : Bytes} → named path r ≡ ok key → r ≡ ok key
named-eq-ok path (ok k) h = cc
named-eq-ok path (err e) h = cc

found-missing : (o : Option Bytes) → missing ≡ found o → o ≡ none
found-missing none e = refl
found-missing (some s) e = cc

found-contents : (o : Option Bytes) (s : Bytes) → contents s ≡ found o → o ≡ some s
found-contents none s e = cc
found-contents (some t) s e = cc

module _ (path : Bytes) (paths : List Bytes) (key : Bytes) (w : World) where
  read-IsFirst :
      (r : Read)
      → (r ≡ failed) ⊎ (r ≡ found (lookup path w.files))
      → ((load_host_key paths (read_file {E = Error} path w).1).0 ≡ ok key
          → IsFirst w.files paths key)
      → (key_of path (load_host_key paths) r (read_file {E = Error} path w).1).0 ≡ ok key
      → IsFirst w.files (path ∷ paths) key
  unfolding key_of
  read-IsFirst failed e later k = cc
  read-IsFirst missing (inl e) later k = cc
  read-IsFirst (contents s) (inl e) later k = cc
  read-IsFirst missing (inr e) later k = inl (found-missing (lookup path w.files) e, later k)
  read-IsFirst (contents s) (inr e) later k =
      inr (s, found-contents (lookup path w.files) s e, named-eq-ok path (parse_key s) k)

-- A machine that loads a key without error advertises that of the first key file that is there, parsed.
pub load_host_key-IsFirst :
    (paths : List Bytes) (key : Bytes) (w : World)
    → (load_host_key paths w).0 ≡ ok key
    → IsFirst w.files paths key
unfolding load_host_key
load_host_key-IsFirst [] key w h = cc
load_host_key-IsFirst (path ∷ paths) key w h =
    let (r, e, same) = >>=-eq-ok (read_file path) (key_of path (load_host_key paths)) w h in
    let quiet = (read_file-IsQuiet Error path).unchanged w in
    read-IsFirst path paths key w r (read_file-eq-ok Error path w r e)
      (λ k.
        subst (λ d. IsFirst d paths key) quiet
          (load_host_key-IsFirst paths key (read_file path w).1 k))
      (rw same at h)
