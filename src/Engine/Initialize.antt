-- ===== src/Engine/Initialize.antt =====
-- What `initialize_files` of crates/daemon/src/engine.rs leaves on disk.
use torrent_rust_cli.Common.{
  ℕ, ◌-◌, ◌≡◌, refl, sym, ap, ap₂, ◌∙◌, true, false, Bool, [], ◌∷◌, List, map, Bytes, length,
  replicate, arith, Bool-cases, inl, inr, take_whole, ◌++◌, some, All, append-nil, bytes_eq,
  bytes_eq→eq, ok,
}
use mathlib.Core.Path.{fun_ext}
use torrent_rust_cli.Meta.Types.{TorrentFile, FileMode, single, multi}
use torrent_rust_cli.Engine.Flat.{whole, IsFlat}
use torrent_rust_cli.Engine.Verify.{
  Store, path_eq, put_file, disk_of, set_len, is_empty, init_file, init_files, initialize_files,
}

path_eq→eq : (p q : List Bytes) → path_eq p q ≡ true → p ≡ q
unfolding path_eq
path_eq→eq [] [] h = refl
path_eq→eq [] (y ∷ ys) h = cc
path_eq→eq (x ∷ xs) [] h = cc
path_eq→eq (x ∷ xs) (y ∷ ys) h = elim (Bool-cases (bytes_eq x y)) [
  | inl e ↦ ap₂ (λ a b. a ∷ b) (bytes_eq→eq x y e) (path_eq→eq xs ys (rw e at h))
  | inr e ↦ let h' = rw e at h in cc
]

set_len_unchanged : (n : ℕ) (c : Bytes) → length c ≡ n → set_len n (some c) ≡ c
unfolding set_len
set_len_unchanged n c e =
    let rest : n - length c ≡ 0 = omega (arith, e) in
    ap₂ (λ t k. t ++ replicate k 0) (take_whole n c (omega (arith, e))) rest ∙ append-nil c

-- The file system gives access to all the paths of the torrent.
unfoldable pub IsAllowed : (List Bytes → Bool) → FileMode → Type 0
IsAllowed access (single n) = access [] ≡ true
IsAllowed access (multi ms) = (access [] ≡ true) × All (λ m. access m.path ≡ true) ms

put_file_same :
    (p : List Bytes) (c : Bytes) (store : Store) → store p ≡ some c → put_file p c store ≡ store
unfolding put_file
put_file_same p c store e = fun_ext (λ q. elim (Bool-cases (path_eq q p)) [
  | inl t ↦ rw t (sym e ∙ ap store (sym (path_eq→eq q p t)))
  | inr t ↦ rw t refl
])

init_file_unchanged :
    (access : List Bytes → Bool) (p : List Bytes) (n : ℕ) (store : Store) (c : Bytes)
    → access p ≡ true
    → store p ≡ some c
    → length c ≡ n
    → init_file access p n store ≡ ok store
unfolding init_file
init_file_unchanged access p n store c a e l =
    let made : set_len n (store p) ≡ c = ap (set_len n) e ∙ set_len_unchanged n c l in
    rw (a, made) (ap ok (put_file_same p c store e))

init_files_unchanged :
    (access : List Bytes → Bool) (ms : List TorrentFile) (store : Store) (cs : List Bytes)
    → All (λ m. access m.path ≡ true) ms
    → map (λ f. record { size = f.length; content = store f.path }) ms ≡ map whole cs
    → init_files access ms store ≡ ok store
unfolding init_files
init_files_unchanged access [] store cs a e = refl
init_files_unchanged access (m ∷ ms) store [] a e = cc
init_files_unchanged access (m ∷ ms) store (c ∷ cs) a e =
    let size : m.length ≡ length c = cc in
    let content : store m.path ≡ some c = cc in
    let others : map (λ f. record { size = f.length; content = store f.path }) ms ≡ map whole cs =
      cc in
    let rest = init_files_unchanged access ms store cs a.1 others in
    elim (Bool-cases (is_empty m.path)) [
      | inl t ↦ rw t rest
      | inr t ↦
          rw (t, init_file_unchanged access m.path m.length store c a.0 content (sym size)) rest
    ]

-- Files that are there in their lengths stay as they are.
pub initialize_files_flat :
    (access : List Bytes → Bool) (mode : FileMode) (store : Store) (bs : Bytes)
    → IsAllowed access mode
    → IsFlat (disk_of mode store) bs
    → initialize_files access mode store ≡ ok store
unfolding IsAllowed initialize_files disk_of
initialize_files_flat access (single n) store bs a flat =
    init_file_unchanged access [] n store bs a (ap (λ f. f.content) flat)
      (sym (ap (λ f. f.size) flat))
initialize_files_flat access (multi ms) store bs a (cs, e, q) =
    rw (a.0) (init_files_unchanged access ms store cs a.1 e)

abbrev IsApart : List Bytes → TorrentFile → Type 0
IsApart p m = (path_eq p m.path ≡ false) × (path_eq m.path p ≡ false)

-- Each file has a path, and no other file has the same.
unfoldable pub HasOwnPaths : List TorrentFile → Type 0
HasOwnPaths [] = Unit
HasOwnPaths (m ∷ ms) = (is_empty m.path ≡ false) × All (IsApart m.path) ms × HasOwnPaths ms

unfoldable pub HasPaths : FileMode → Type 0
HasPaths (single n) = Unit
HasPaths (multi ms) = HasOwnPaths ms

-- What the loop leaves: each file cut to its length or filled up with zeros, and no other changed.
record Initialized (access : List Bytes → Bool) (ms : List TorrentFile) (store : Store)
    : Type 0 where
  left : Store
  returns : init_files access ms store ≡ ok left
  others : (q : List Bytes) → All (λ m. path_eq q m.path ≡ false) ms → left q ≡ store q
  each : All (λ m. left m.path ≡ some (set_len m.length (store m.path))) ms
