-- ===== src/Runtime/DownloadStatus.antt =====
-- `DownloadStatus` of src/runtime/download.rs: how a download ends. `D` is the type of
-- `DownloadTerminal`. Every method holds the lock for its whole change, so the calls of several tasks
-- are a sequence.
use browserkit.Common.{
  ◌≡◌, ◌⊎◌, inl, inr, Option, none, some, List, [], ◌∷◌, String, is_some, if◌then◌else◌, arith,
}

pub record DownloadStatus (D : Type 0) : Type 0 where
  pub terminal : Option D
  pub closed : Option String

-- `get_or_insert`.
abbrev pub or_else : {A : Type 0} → Option A → A → A
or_else none a = a
or_else (some b) a = b

pub data Call (D : Type 0) : Type 0 where
  finishes : D → Call D
  closes : String → Call D

module _ {D : Type 0} where
  -- The answer is the end that counts, unless the manager was closed before.
  unfoldable pub finish : D → DownloadStatus D → DownloadStatus D × Option D
  finish t s =
      if is_some s.closed
      then (s, none)
      else (record s { terminal = some (or_else s.terminal t) }, some (or_else s.terminal t))

  unfoldable pub close : String → DownloadStatus D → DownloadStatus D
  close message s =
      if is_some s.terminal then s else record s { closed = some (or_else s.closed message) }

  -- One look of `wait`: the end of the download, the message of the close, or another wait.
  unfoldable pub look : DownloadStatus D → Option (String ⊎ D)
  look s = elim s.terminal [
    | some t ↦ some (inr t)
    | none ↦ elim s.closed [ none ↦ none | some message ↦ some (inl message) ]
  ]

  pub run : List (Call D) → DownloadStatus D → DownloadStatus D
  run [] s = s
  run (finishes t ∷ calls) s = run calls (finish t s).0
  run (closes message ∷ calls) s = run calls (close message s)

  finish-look :
      (t : D) (s : DownloadStatus D) (a : String ⊎ D)
      → look s ≡ some a
      → look (finish t s).0 ≡ some a
  unfolding look finish
  finish-look t s a h = ground arith

  close-look :
      (message : String) (s : DownloadStatus D) (a : String ⊎ D)
      → look s ≡ some a
      → look (close message s) ≡ some a
  unfolding look close
  close-look message s a h = ground arith

  run-look :
      (calls : List (Call D)) (s : DownloadStatus D) (a : String ⊎ D)
      → look s ≡ some a
      → look (run calls s) ≡ some a
  unfolding run
  run-look [] s a h = h
  run-look (finishes t ∷ calls) s a h = run-look calls (finish t s).0 a (finish-look t s a h)
  run-look (closes message ∷ calls) s a h =
      run-look calls (close message s) a (close-look message s a h)

  -- When an end of a download is accepted, every wait from then on answers the end that the call
  -- has answered, whatever ends are reported later and whether the manager is closed or not.
  pub finish-settles :
      (t c : D) (s : DownloadStatus D) (later : List (Call D))
      → (finish t s).1 ≡ some c
      → look (run later (finish t s).0) ≡ some (inr c)
  unfolding finish look
  finish-settles t c s later h = run-look later (finish t s).0 (inr c) (ground arith)
