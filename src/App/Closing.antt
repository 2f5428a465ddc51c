-- ===== src/App/Closing.antt =====
-- The handle of the mutex, the services and the exit codes of a run of the program.
use smtc_now_playing.Prelude.{
  ℕ, zero, suc, Bool, true, false, List, [], ◌∷◌, ◌++◌, ◌==◌, if◌then◌else◌, ◌≡◌, ◌≢◌, ◌⊎◌, All,
}
use smtc_now_playing.Config.{Config, default_config}
use smtc_now_playing.Config.Reading.{Loaded, loaded}
use smtc_now_playing.App.{
  Call, close_handle, start_services, exit, Answers, ServiceEnd, returned, canceled, failed,
}

-- The handles that are closed, the configurations that services are started with, and the exit codes.
abbrev pub closed_handles : List Call → List ℕ
closed_handles [] = []
closed_handles (close_handle h ∷ cs) = h ∷ closed_handles cs
closed_handles (c ∷ cs) = closed_handles cs

abbrev pub started : List Call → List Config
started [] = []
started (start_services c ∷ cs) = c ∷ started cs
started (c ∷ cs) = started cs

abbrev pub exits : List Call → List ℕ
exits [] = []
exits (exit n ∷ cs) = n ∷ exits cs
exits (c ∷ cs) = exits cs

abbrev pub when_set : ℕ → List ℕ
when_set zero = []
when_set (suc h) = suc h ∷ []

-- Whether the mutex is new.
abbrev pub fresh : ℕ → ℕ → Bool
fresh zero errno = false
fresh (suc h) errno = if errno == 183 then false else true

-- The first of the services that ends with an error, in the order in which they end, ends so.
abbrev pub FirstError : ServiceEnd → List ServiceEnd → Type 0
FirstError e ends =
    (before : List ServiceEnd) × (after : List ServiceEnd) × (ends ≡ before ++ e ∷ after)
    × All (λ x. x ≡ returned) before

-- The exit code is 1 after a failure, and 0 after a cancellation and without an error.
abbrev pub Exited : List ServiceEnd → ℕ → Type 0
Exited ends code =
    ((code ≡ 1) × FirstError failed ends)
    ⊎ ((code ≡ 0) × (All (λ x. x ≡ returned) ends ⊎ FirstError canceled ends))

-- The configuration of the file, or the default one if none can be loaded.
abbrev pub Configured : Loaded → Config → Type 0
Configured file c = (file ≡ loaded c) ⊎ (((d : Config) → file ≢ loaded d) × (c ≡ default_config))

abbrev pub Runs : Answers → List Call → Type 0
Runs a calls =
    (closed_handles calls ≡ when_set a.handle)
    × (((fresh a.handle a.errno ≡ false) × (started calls ≡ []) × (exits calls ≡ []))
        ⊎ ((fresh a.handle a.errno ≡ true)
            × ((c : Config) × Configured a.config c × (started calls ≡ c ∷ []))
            × ((code : ℕ) × Exited a.ends code × (exits calls ≡ code ∷ []))))
