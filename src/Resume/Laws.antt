-- ===== src/Resume/Laws.antt =====
-- The state files and the bookkeeping of transfer/resume.rs.
use p2pfileshare.Base.{
  ℕ, ltb, if◌then◌else◌, String, true, ◌&&◌, not, ◌≡◌, refl, ◌↔◌, [], ◌∷◌, none, some, ok, arith,
  Res-cases, inl, inr,
}
use p2pfileshare.Base.Bytes.{Bytes}
use p2pfileshare.Base.Sets.{contains, contains-missing}
use p2pfileshare.Resume.{
  TransferState, Json, Store, same_id, read_file, remove_file, save, load, delete, missing_chunks,
}

pub same_id_iff : (xs ys : Bytes) → (same_id xs ys ≡ true) ↔ (xs ≡ ys)
unfolding same_id
same_id_iff [] [] = ground arith
same_id_iff [] (y ∷ ys) = ground arith
same_id_iff (x ∷ xs) [] = ground arith
same_id_iff (x ∷ xs) (y ∷ ys) = ground (arith, same_id_iff xs ys)

pub same_id_refl : (xs : Bytes) → same_id xs xs ≡ true
same_id_refl xs = (same_id_iff xs xs).1 refl

read_file-remove_file :
    (i id : Bytes) (store : Store)
    → read_file i (remove_file id store) ≡ (if same_id id i then none else read_file i store)
unfolding read_file remove_file
read_file-remove_file i id [] = ground arith
read_file-remove_file i id ((j, text) ∷ store) =
    ground
      (arith, read_file-remove_file i id store, same_id_iff j id, same_id_iff j i, same_id_iff id i)

-- Each state has its own JSON text.
pub record IsJson (j : Json) : Type 0 where
  pub from_str-to_string :
      (s : TransferState) (text : String) → j.to_string_pretty s ≡ ok text → j.from_str text ≡ ok s

-- A saved state is loaded again under its own session id, and under any other id the store answers
-- as before.
pub load-save :
    (j : Json) (s : TransferState) (id : Bytes) (store store' : Store)
    → IsJson j
    → save j s store ≡ ok store'
    → load j id store' ≡ (if same_id s.session_id id then ok (some s) else load j id store)
unfolding save load read_file
load-save j s id store store' lawful e = elim (Res-cases j.dir_made) [
  | inr (_, failed) ↦ absurd (ground (arith, e, failed))
  | inl (_, made) ↦ elim (Res-cases (j.to_string_pretty s)) [
    | inr (_, failed) ↦ absurd (ground (arith, e, made, failed))
    | inl (text, printed) ↦ elim (Res-cases j.file_written) [
      | inr (_, failed) ↦ absurd (ground (arith, e, made, printed, failed))
      | inl (_, written) ↦ ground (
        arith,
        e,
        made,
        printed,
        written,
        lawful.from_str-to_string s text printed,
        read_file-remove_file id s.session_id store,
      )
    ]
  ]
]

-- After a deletion the state is gone, and the others are left.
pub load-delete :
    (j : Json) (s : TransferState) (id : Bytes) (store : Store)
    → load j id (delete s store) ≡ (if same_id s.session_id id then ok none else load j id store)
unfolding load delete
load-delete j s id store = ground (arith, read_file-remove_file id s.session_id store)

-- The missing chunks are those below the count that are not done.
pub contains-missing_chunks :
    (s : TransferState) (i : ℕ)
    → contains (missing_chunks s) i
      ≡ (ltb i s.manifest.chunk_count && not (contains s.chunks_done i))
unfolding missing_chunks
contains-missing_chunks s i =
    ground (arith, contains-missing s.manifest.chunk_count 0 i s.chunks_done)
