-- ===== src/Tests/Resumes.antt =====
-- Saved states, and the moment at which a receiver saves one.
use p2pfileshare.Base.{
  ℕ, zero, suc, ◌≡◌, refl, sym, ap, Bool, true, false, ◌&&◌, ◌==◌, String, List, [], ◌∷◌, none,
  some, Res, ok, err, arith, if◌then◌else◌,
}
use p2pfileshare.Base.Sets.{contains, is_empty, remove, insert}
use p2pfileshare.Manifest.{TransferMode, bulk, streaming}
use p2pfileshare.Resume.{join, TransferState, Json, Store, save, load, same_id}
use p2pfileshare.Resume.Laws.{IsJson, load-save}
use p2pfileshare.Receiver.{Env, Recv, accept_chunk}
use p2pfileshare.Receiver.Saves.{accept_chunk_saves_early}
use p2pfileshare.Tests.Data.{tiny, abc, peer, tagging, calm_env}

empty_text : String → Bool
empty_text String.[] = true
empty_text (String.◌∷◌ c s) = false

is_bulk : TransferMode → Bool
is_bulk bulk = true
is_bulk (streaming _) = false

is_blank : TransferState → Bool
unfolding is_empty empty_text is_bulk
is_blank s =
    is_empty s.session_id
    && (empty_text s.output_path
        && (is_empty s.manifest.session_id
            && (empty_text s.manifest.filename
                && (empty_text s.manifest.mime_type
                    && (s.manifest.total_size == 0
                        && (s.manifest.chunk_size == 0
                            && (s.manifest.chunk_count == 0
                                && (is_bulk s.manifest.transfer_mode
                                    && s.manifest.created_at == 0))))))))

abbrev blank : List ℕ → TransferState
blank done = record {
  session_id = [];
  manifest = record {
    session_id = [];
    filename = "";
    mime_type = "";
    total_size = 0;
    chunk_size = 0;
    chunk_count = 0;
    transfer_mode = bulk;
    created_at = 0;
  };
  chunks_done = done;
  output_path = "";
}

empty_text-eq : (s : String) → empty_text s ≡ true → s ≡ ""
unfolding empty_text
empty_text-eq String.[] h = refl
empty_text-eq (String.◌∷◌ c s) h = cc

is_empty-eq : (xs : List ℕ) → is_empty xs ≡ true → xs ≡ []
unfolding is_empty
is_empty-eq [] h = refl
is_empty-eq (x ∷ xs) h = cc

is_bulk-eq : (mode : TransferMode) → is_bulk mode ≡ true → mode ≡ bulk
unfolding is_bulk
is_bulk-eq bulk h = refl
is_bulk-eq (streaming _) h = cc

is_blank-eq : (s : TransferState) → is_blank s ≡ true → s ≡ blank s.chunks_done
unfolding is_blank
is_blank-eq s h = ground (
  arith,
  h,
  is_empty-eq s.session_id,
  empty_text-eq s.output_path,
  is_empty-eq s.manifest.session_id,
  empty_text-eq s.manifest.filename,
  empty_text-eq s.manifest.mime_type,
  is_bulk-eq s.manifest.transfer_mode,
)

-- A blank state has a text if nothing or the first chunk is done.
print : Bool → List ℕ → Res String String
print false done = err "unsupported"
print true [] = ok ""
print true (zero ∷ []) = ok "x"
print true (_ ∷ _) = err "unsupported"

parse : String → Res String TransferState
parse String.[] = ok (blank [])
parse (String.◌∷◌ c s) = ok (blank (0 ∷ []))

unfoldable blank_json : Json
unfolding print parse is_blank
blank_json = record {
  to_string_pretty = λ s. print (is_blank s) s.chunks_done;
  from_str = parse;
  dir_made = ok tt;
  file_written = ok tt;
}

parse-print :
    (b : Bool) (done : List ℕ) (text : String)
    → print b done ≡ ok text
    → (b ≡ true) × (parse text ≡ ok (blank done))
unfolding print parse
parse-print false done text e = cc
parse-print true [] text e = let same : "" ≡ text = ground arith in (refl, ap parse (sym same))
parse-print true (zero ∷ []) text e =
    let same : "x" ≡ text = ground arith in (refl, ap parse (sym same))
parse-print true (suc n ∷ done) text e = cc
parse-print true (zero ∷ n ∷ done) text e = cc

blank_json-IsJson : IsJson blank_json
unfolding blank_json
blank_json-IsJson = record {
  from_str-to_string = λ s text e.
      let (known, back) = parse-print (is_blank s) s.chunks_done text e in
      rw back (ap ok (sym (is_blank-eq s known)));
}

-- What an earlier transfer has left.
abbrev old : Store
old = ((5 ∷ []), "old") ∷ ([], "older") ∷ []

load-save_example :
    load blank_json [] (([], "") ∷ ((5 ∷ []), "old") ∷ [])
    ≡ (if same_id [] [] then ok (some (blank [])) else load blank_json [] old)
unfolding blank_json same_id save
load-save_example =
    load-save blank_json (blank []) [] old (([], "") ∷ ((5 ∷ []), "old") ∷ []) blank_json-IsJson
      refl

abbrev blank_env : Env
blank_env = record calm_env { json = blank_json }

-- Fifteen chunks were accepted since the last save.
abbrev before : Recv
before = record {
  session = peer tagging;
  ctrl_out = [];
  sent = [];
  state = blank [];
  pending = 0 ∷ 1 ∷ [];
  file = abc;
  pending_write = none;
  chunks_since_save = 15;
  chunks_since_ack = 0;
  confirmed = 0;
  bar = record { bytes_done = 0; bytes_total = 3 };
  store = [];
}

unfoldable after : Recv
unfolding accept_chunk
after = elim (accept_chunk blank_env tiny before 0 (120 ∷ 121 ∷ [])) [ ok r ↦ r | err _ ↦ before ]

accept_chunk_saves_early_example :
    (load blank_json after.state.session_id after.store ≡ ok (some after.state))
    × (contains after.state.chunks_done 0 ≡ true)
    × (after.pending_write ≡ some (0, 120 ∷ 121 ∷ []))
    × (after.file ≡ abc)
unfolding after accept_chunk save is_empty remove blank_json insert
accept_chunk_saves_early_example =
    accept_chunk_saves_early blank_env tiny before after 0 (120 ∷ 121 ∷ []) blank_json-IsJson refl
      refl

join_test : (join "a/" "b" ≡ "a/b") × (join "a" "b" ≡ "a/b") × (join "" "b" ≡ "b")
unfolding join
join_test = (refl, refl, refl)
