-- ===== src/LoadSmoke/Accepts.antt =====
-- The load test accepts the plugin that it was made for.
use codex_pat.Base.{
  &&_parts, All, All-map, All-reverse, Bool, Bool-cases, Bytes, List, Option, [], all, arith, codes,
  false, if◌then◌else◌, inl, inr, none, not, of_all, refl, reverse, reverse-reverse, same,
  same_refl, some, subst, true, ◌++◌, ◌==◌, ◌∷◌, ◌≡◌, ◌⊎◌,
}
use codex_pat.Credential.AuthData.{is_digit}
use codex_pat.Errors.{Result, ok}
use codex_pat.LoadSmoke.{
  ListedPlugin, Menu, Round, any_expected, exited, has_expected_menu, has_expected_metadata,
  is_expected, is_number, is_readable, responded, split_from, timed_out, unanswered, valid_version,
  wait_for_registration,
}
use codex_pat.Management.Assets.{ManagementRegistration, ResourceRoute, register}
use codex_pat.Plugin.{Registration, new_registration}
use codex_pat.Text.Trim.{trim}
use codex_pat.Text.Trim.Laws.{trim_fixed}
use codex_pat.Text.Trim.Plain.{IsVisible, visible-IsTrimmed}

number-IsVisible : (s : Bytes) → is_number s ≡ true → All IsVisible s
unfolding is_number is_digit
number-IsVisible [] h = cc
number-IsVisible (c ∷ s) h =
    All-map {P = λ x. is_digit x ≡ true} (λ x d. (ground arith, ground arith)) (c ∷ s)
      (of_all is_digit (c ∷ s) h)

split-IsVisible :
    (part s : Bytes)
    → all is_number (split_from b'.' part s) ≡ true
    → All IsVisible part × All IsVisible s
unfolding split_from
split-IsVisible part [] h =
    let (n, _) = &&_parts (is_number (reverse part)) true h in
    (
      subst (All IsVisible) (reverse-reverse part)
          (All-reverse IsVisible (reverse part) (number-IsVisible (reverse part) n)),
      tt,
    )
split-IsVisible part (c ∷ s) h =
    by_byte (Bool-cases (c == b'.')) h (split-IsVisible [] s) (split-IsVisible (c ∷ part) s)
  where
    by_byte :
        (c == b'.' ≡ true) ⊎ (c == b'.' ≡ false)
        → all is_number (
            if c == b'.' then reverse part ∷ split_from b'.' [] s else split_from b'.' (c ∷ part) s)
          ≡ true
        → (all is_number (split_from b'.' [] s) ≡ true → All IsVisible [] × All IsVisible s)
        → (all is_number (split_from b'.' (c ∷ part) s) ≡ true
            → All IsVisible (c ∷ part) × All IsVisible s)
        → All IsVisible part × All IsVisible (c ∷ s)
    by_byte (inl e) h k l =
        let h' =
          subst
            (λ b.
              all is_number
                (if b then reverse part ∷ split_from b'.' [] s else split_from b'.' (c ∷ part) s)
              ≡ true)
            e h in
        let (n, r) =
          &&_parts (is_number (reverse part)) (all is_number (split_from b'.' [] s)) h' in
        (
          subst (All IsVisible) (reverse-reverse part)
              (All-reverse IsVisible (reverse part) (number-IsVisible (reverse part) n)),
          ((ground arith, ground arith), (k r).1),
        )
    by_byte (inr e) h k l =
        let h' =
          subst
            (λ b.
              all is_number
                (if b then reverse part ∷ split_from b'.' [] s else split_from b'.' (c ∷ part) s)
              ≡ true)
            e h in
        let ((v, p), w) = l h' in (p, (v, w))

version_parts : (v : Bytes) → valid_version v ≡ true → all is_number (split_from b'.' [] v) ≡ true
unfolding valid_version
version_parts v h = (&&_parts _ _ h).1

trim_version : (v : Bytes) → valid_version v ≡ true → trim v ≡ v
trim_version v h = trim_fixed (visible-IsTrimmed v (split-IsVisible [] v (version_parts v h)).1)

version_not_blank : (v : Bytes) → valid_version v ≡ true → same v [] ≡ false
unfolding valid_version split_from same
version_not_blank [] h = absurd (ground arith)
version_not_blank (c ∷ s) h = refl

abbrev menus_of : List ResourceRoute → List Menu
menus_of [] = []
menus_of (r ∷ rs) =
    let rest = menus_of rs in
    if same r.menu [] then rest else record { path = r.path; menu = r.menu } ∷ rest

-- What the host lists of a plugin that it has loaded: its registration, and its resources in menus.
pub record Lists (p : ListedPlugin) (r : Registration) (m : ManagementRegistration) : Type 0 where
  pub id_is : p.id ≡ codes "codex-pat"
  pub is_registered : p.registered ≡ true
  pub is_enabled : p.effective_enabled ≡ true
  pub metadata_is :
      p.metadata
      ≡ some (record {
        name = r.name;
        version = r.version;
        author = r.author;
        git_hub_repository = r.git_hub_repository;
      })
  pub menus_are : p.menus ≡ menus_of m.resources

registration_version : (v : Bytes) → valid_version v ≡ true → (new_registration v).version ≡ v
unfolding new_registration
registration_version v h = rw (trim_version v h, version_not_blank v h) refl

metadata_expected :
    (v version : Bytes)
    → version ≡ v
    → has_expected_metadata v (
        some (record {
          name = codes "Codex PAT";
          version = version;
          author = codes "Ca11back";
          git_hub_repository = codes "https://github.com/Ca11back/codex-pat";
        }))
      ≡ true
unfolding has_expected_metadata same
metadata_expected v version e = rw (e, same_refl v) refl

menu_expected : has_expected_menu (menus_of register.resources) ≡ true
unfolding has_expected_menu same
menu_expected = refl

registration_expected :
    (v : Bytes)
    → valid_version v ≡ true
    → let r = new_registration v in
      has_expected_metadata v (
        some (record {
          name = r.name;
          version = r.version;
          author = r.author;
          git_hub_repository = r.git_hub_repository;
        }))
      ≡ true
unfolding new_registration
registration_expected v h = metadata_expected v _ (registration_version v h)

pub listed-is_expected :
    (v : Bytes) (p : ListedPlugin)
    → valid_version v ≡ true
    → Lists p (new_registration v) register
    → is_expected v p ≡ true
unfolding is_expected
listed-is_expected v p h l =
    rw (l.id_is, l.is_registered, l.is_enabled, l.metadata_is, l.menus_are)
      (rw (registration_expected v h, menu_expected, same_refl (codes "codex-pat")) refl)

any_expected_of :
    (v : Bytes) (before after : List ListedPlugin) (p : ListedPlugin)
    → is_expected v p ≡ true
    → any_expected v (before ++ p ∷ after) ≡ true
any_expected_of v [] after p h = rw h refl
any_expected_of v (q ∷ before) after p h = ground (arith, any_expected_of v before after p h)

-- A round that does not end the loop with an error.
abbrev pub IsWaiting : Round → Type 0
IsWaiting exited = ⊥
IsWaiting timed_out = ⊥
IsWaiting unanswered = Unit {0}
IsWaiting (responded read status body) = Unit {0}

-- A response that is not the one looked for ends the loop well, or leaves it to the rest.
either_way :
    (v : Bytes) (b : Bool) (o : Option (List ListedPlugin)) {rest : Option (Result (Unit {0}))}
    → rest ≡ some (ok tt)
    → (if not b then rest else elim o [
      | none ↦ rest
      | some plugins ↦ if any_expected v plugins then some (ok tt) else rest
    ])
      ≡ some (ok tt)
either_way v false o e = e
either_way v true none e = e
either_way v true (some plugins) e = by_test (any_expected v plugins) e
  where
    by_test :
        {rest : Option (Result (Unit {0}))} (t : Bool)
        → rest ≡ some (ok tt)
        → (if t then some (ok tt) else rest) ≡ some (ok tt)
    by_test true e = refl
    by_test false e = e

-- The load test accepts this plugin: if the version asked for is a valid one and the plugin was built
-- with it, then a loop that meets neither the end of the process nor that of its time before the
-- host lists the plugin as it has registered ends without an error.
pub wait_for_registration_accepts :
    (read_plugins : Bytes → Option (List ListedPlugin)) (v : Bytes) (p : ListedPlugin)
    (before after : List ListedPlugin) (earlier later : List Round) (body : Bytes)
    → valid_version v ≡ true
    → Lists p (new_registration v) register
    → read_plugins body ≡ some (before ++ p ∷ after)
    → All IsWaiting earlier
    → wait_for_registration read_plugins v (earlier ++ responded true 200 body ∷ later)
      ≡ some (ok tt)
unfolding wait_for_registration
wait_for_registration_accepts read_plugins v p before after [] later body h l e w =
    rw (e, any_expected_of v before after p (listed-is_expected v p h l)) refl
wait_for_registration_accepts read_plugins v p before after (exited ∷ earlier) later body h l e
      (w, ws) =
    absurd w
wait_for_registration_accepts read_plugins v p before after (timed_out ∷ earlier) later body h l e
      (w, ws) =
    absurd w
wait_for_registration_accepts read_plugins v p before after (unanswered ∷ earlier) later body h l e
      (w, ws) =
    wait_for_registration_accepts read_plugins v p before after earlier later body h l e ws
wait_for_registration_accepts read_plugins v p before after (responded read status text ∷ earlier)
      later body h l e (w, ws) =
    either_way v (is_readable read status) (read_plugins text)
      (wait_for_registration_accepts read_plugins v p before after earlier later body h l e ws)
