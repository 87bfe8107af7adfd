-- ===== src/LocalFile/Examples.antt =====
-- Paths and files of network/pfs_localfile.c.
use pfs.Common.{ℕ, ◌≡◌, ◌≢◌, ◌⊎◌, refl, true, false, some, List, [], ◌∷◌, ◌++◌, arith, pos}
use pfs.LocalFile.{
  Disk, slash, trim_sep, storage_convert, rev_onto, localfile_ok, is_ok, close_tmp_check_mv,
}
use pfs.LocalFile.Paths.{located, storage_convert_lem}
use pfs.LocalFile.Store.{Published, close-Published}
use pfs.Task.Types.{TaskBase, zero_base}

-- "/x/3/4/p", below "/d/".
abbrev uploaded : TaskBase
uploaded = record zero_base { filename = 47 ∷ 120 ∷ 47 ∷ 51 ∷ 47 ∷ 52 ∷ 47 ∷ 112 ∷ [] }

storage_convert_lem_example : storage_convert (47 ∷ 100 ∷ 47 ∷ []) [] uploaded ≡ (
  record uploaded {
    retfile = located (51 ∷ 47 ∷ 52 ∷ []) (112 ∷ []);
    filename = trim_sep ((47 ∷ 100 ∷ 47 ∷ []) ++ located (51 ∷ 47 ∷ 52 ∷ []) (112 ∷ [])) slash;
  },
  localfile_ok,
)
unfolding rev_onto
storage_convert_lem_example =
    storage_convert_lem (47 ∷ 100 ∷ 47 ∷ []) [] (47 ∷ 120 ∷ []) (51 ∷ 47 ∷ 52 ∷ []) (112 ∷ [])
      uploaded refl (refl, (refl, (refl, tt))) (refl, tt) refl (omega arith)

-- A digest for the examples: the first byte, if there is one.
abbrev first_byte : List ℕ → List ℕ
first_byte [] = []
first_byte (b ∷ bs) = b ∷ []

-- The temporary file "t" of the file "f", whose announced digest is that of its content.
abbrev named : TaskBase
named = record zero_base { filename = 102 ∷ []; tmpfile = 116 ∷ []; filemd5 = 9 ∷ 0 ∷ [] }

abbrev one_file : Disk
one_file = record { content = λ p. some (9 ∷ 8 ∷ []); path = λ fd. 116 ∷ []; offset = λ fd. 2 }

close-Published_example :
    ((is_ok (close_tmp_check_mv first_byte true named (pos 5) (9 ∷ 0 ∷ []) one_file).1 ≡ true)
      × Published named
          (9 ∷ 8 ∷ [])
          one_file
          (close_tmp_check_mv first_byte true named (pos 5) (9 ∷ 0 ∷ []) one_file).0
      × ((9 ∷ 0 ∷ [] ≡ named.filemd5) ⊎ ((first_byte (9 ∷ 8 ∷ []) ++ (0 ∷ [])) ≡ named.filemd5)))
    ⊎ ((is_ok (close_tmp_check_mv first_byte true named (pos 5) (9 ∷ 0 ∷ []) one_file).1 ≡ false)
        × ((close_tmp_check_mv first_byte true named (pos 5) (9 ∷ 0 ∷ []) one_file).0 ≡ one_file))
close-Published_example =
    close-Published first_byte true named (pos 5) (9 ∷ 0 ∷ []) (9 ∷ 8 ∷ []) one_file refl differ
  where
    differ : named.tmpfile ≢ named.filename
    differ e = ground arith
