-- ===== src/File/Ownership.antt =====
-- That each descriptor is closed once (include/miniss/io/file.h and lib/io/file.cpp).
use miniss.Base.{ℕ, ◌+◌, ℤ, pos, Bool, ◌&&◌, ◌≡◌, Option, none, some, List, [], ◌∷◌, ◌++◌, count}
use miniss.File.{File, is_open, construct, move_construct, move_assign, close, destroy}

-- The files of a program, the descriptors that `open_file` was given and those that were closed.
pub record Files : Type 0 where
  pub files : List File
  pub opened : List ℤ
  pub closed : List ℤ

abbrev pub add_closed : List ℤ → Option ℤ → List ℤ
add_closed closed none = closed
add_closed closed (some fd) = closed ++ fd ∷ []

-- What a program does with files, in any order: open one, move-construct one, move-assign between two,
-- close one, or destroy one.
pub data Step (s : Files) : Files → Type 0 where
  opens :
      (cpu io n : ℕ)
      → Step s (record s {
        files = s.files ++ construct cpu io (pos n) ∷ [];
        opened = s.opened ++ pos n ∷ [];
      })
  moves :
      (a b : List File) (f : File)
      → s.files ≡ a ++ (f ∷ b)
      → Step s (record s { files = (a ++ ((move_construct f).1 ∷ b)) ++ (move_construct f).0 ∷ [] })
  assigns :
      (a b c : List File) (f g : File)
      → s.files ≡ a ++ (f ∷ (b ++ (g ∷ c)))
      → Step s (record s { files = a ++ ((move_assign f g).0 ∷ (b ++ ((move_assign f g).1 ∷ c))) })
  assigns_back :
      (a b c : List File) (f g : File)
      → s.files ≡ a ++ (f ∷ (b ++ (g ∷ c)))
      → Step s (record s { files = a ++ ((move_assign g f).1 ∷ (b ++ ((move_assign g f).0 ∷ c))) })
  closes :
      (a b : List File) (f : File)
      → s.files ≡ a ++ (f ∷ b)
      → Step s
          (record s { files = a ++ ((close f).0 ∷ b); closed = add_closed s.closed (close f).1 })
  destroys :
      (a b : List File) (f : File)
      → s.files ≡ a ++ (f ∷ b)
      → Step s (record s { files = a ++ b; closed = add_closed s.closed (destroy f) })

pub data Reach : Files → Type 0 where
  here : Reach (record { files = []; opened = []; closed = [] })
  next : {s s' : Files} → Reach s → Step s s' → Reach s'

module _ (p : ℤ → Bool) where
  -- The files that own a descriptor which the test picks.
  abbrev pub owns : File → Bool
  owns f = is_open f && p f.fd

  abbrev Owned : Files → Type 0
  Owned s = count p s.opened ≡ count owns s.files + count p s.closed
