-- ===== src/Service/Cleanup.antt =====
-- Which files a tick of startCleanup removes, and what a client then sees.
use ytmpt.Common.{
  ℕ, ◌≡◌, ◌∙◌, inl, inr, refl, ap, Bool, true, false, ◌&&◌, ◌||◌, Option, none, some, List, [], ◌∷◌,
  ◌++◌, if◌then◌else◌, arith, Bool-cases,
}
use ytmpt.Common.Text.{Text, lit, is_empty, text_eq, text_eq_iff}
use ytmpt.Common.Int.{ℤ}
use ytmpt.Config.{Config}
use ytmpt.Models.{ConversionSession}
use ytmpt.Store.Views.{session_at, IsValid, stamped}
use ytmpt.Handlers.{World, is_usable}
use ytmpt.Handlers.Status.{has_output, expire, remove_file, handle_status}
use ytmpt.Handlers.Answers.{shown, handle_status_lem}
use ytmpt.Service.{Entry, is_expired, clean, clean_up}

-- The entry stands for the path, and is old.
abbrev pub is_gone : Text → ℤ → ℕ → Text → Entry → Bool
is_gone dir ttl now path e = is_expired ttl now e && text_eq (dir ++ (lit "/" ++ e.name)) path

abbrev pub any_gone : Text → ℤ → ℕ → Text → List Entry → Bool
any_gone dir ttl now path [] = false
any_gone dir ttl now path (e ∷ entries) =
    is_gone dir ttl now path e || any_gone dir ttl now path entries

remove_file_at :
    (p path : Text) (files : Text → Option ℕ)
    → is_empty path ≡ false
    → remove_file p files path ≡ (if text_eq p path then none else files path)
unfolding remove_file
remove_file_at p path files h = ground (arith, text_eq_iff p path)

clean_lem :
    (dir : Text) (ttl : ℤ) (now : ℕ) (entries : List Entry) (files : Text → Option ℕ) (path : Text)
    → is_empty path ≡ false
    → clean dir ttl now entries files path
      ≡ (if any_gone dir ttl now path entries then none else files path)
unfolding clean
clean_lem dir ttl now [] files path h = refl
clean_lem dir ttl now (e ∷ entries) files path h =
    let p = dir ++ (lit "/" ++ e.name) in
    elim (Bool-cases (is_expired ttl now e)) [
      | inl old ↦ rw old (
          clean_lem dir ttl now entries (remove_file p files) path h
          ∙ ground (arith, remove_file_at p path files h))
      | inr fresh ↦ rw fresh (clean_lem dir ttl now entries files path h)
    ]

abbrev pub outputs_dir : Config → Text
outputs_dir cfg = cfg.conversions_dir ++ lit "/outputs"

abbrev pub streams_dir : Config → Text
streams_dir cfg = cfg.conversions_dir ++ lit "/streams"

-- A tick removes exactly the files that the two directories list with an age above the limit of
-- their directory; the other files are as before.
pub clean_up_lem :
    (cfg : Config) (outs streams : List Entry) (w : World) (path : Text)
    → is_empty path ≡ false
    → (clean_up cfg outs streams w).files path ≡ (
        if any_gone (outputs_dir cfg) cfg.converted_file_ttl w.now path outs
          || any_gone (streams_dir cfg) cfg.unconverted_file_ttl w.now path streams
        then none
        else w.files path)
unfolding clean_up
clean_up_lem cfg outs streams w path h = ground (
  arith,
  clean_lem (streams_dir cfg) cfg.unconverted_file_ttl w.now streams
      (clean (outputs_dir cfg) cfg.converted_file_ttl w.now outs w.files) path h,
  clean_lem (outputs_dir cfg) cfg.converted_file_ttl w.now outs w.files path h,
)

same_store :
    (cfg : Config) (outs streams : List Entry) (w : World)
    → (clean_up cfg outs streams w).store ≡ w.store
unfolding clean_up
same_store cfg outs streams w = refl

is_usable-none :
    (files : Text → Option ℕ) (path : Text) → files path ≡ none → is_usable files path ≡ false
unfolding is_usable
is_usable-none files path h = rw (h, is_usable)

-- A completed session whose output a tick removes is failed at the next handleStatus: it is stored
-- with no output, and the other sessions read as before.
pub handle_status-clean_up :
    (cfg : Config) (outs streams : List Entry) (w : World) (id : Text) (s : ConversionSession)
    → IsValid w.store
    → session_at id w.store ≡ some s
    → has_output s ≡ true
    → any_gone (outputs_dir cfg) cfg.converted_file_ttl w.now s.output_path outs ≡ true
    → let w' = (handle_status id (clean_up cfg outs streams w)).1 in
      (session_at id w'.store ≡ some (stamped w.now (expire s)))
      × ((j : Text) → text_eq id j ≡ false → session_at j w'.store ≡ session_at j w.store)
unfolding clean_up
handle_status-clean_up cfg outs streams w id s v e output gone =
    let cleaned = clean_up cfg outs streams w in
    let r = handle_status_lem id cleaned s v e in
    let filled : is_empty s.output_path ≡ false = ground arith in
    let missing : cleaned.files s.output_path ≡ none =
      ground (arith, clean_up_lem cfg outs streams w s.output_path filled) in
    let seen : shown s cleaned ≡ stamped w.now (expire s) =
      ground (arith, is_usable-none cleaned.files s.output_path missing) in
    (r.stored ∙ ap some seen, r.others)
