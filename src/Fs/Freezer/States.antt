-- ===== src/Fs/Freezer/States.antt =====
-- What a control group's state is after it was frozen or thawed.
use cgroups_rs.Base.{◌≡◌, refl, Bool, true, false, [], ◌∷◌, ◌++◌, ok, if◌then◌else◌}
use cgroups_rs.Text.{Text, codes, trim}
use cgroups_rs.Fs.Host.{Host, Place, push}
use cgroups_rs.Fs.Stored.{Stored, read_text-content, write_value-written}
use cgroups_rs.Fs.Freezer.{
  FreezerState, frozen, thawed, state_file, state_of_text, freeze, thaw, state,
}

abbrev pub frozen_text : Place → Text
frozen_text c = if c.v2 then codes "1" else codes "FROZEN"

abbrev pub thawed_text : Place → Text
thawed_text c = if c.v2 then codes "0" else codes "THAWED"

reads_frozen :
    (b : Bool)
    → state_of_text (trim ((if b then codes "1" else codes "FROZEN") ++ b'\n' ∷ [])) ≡ ok frozen
unfolding state_of_text trim
reads_frozen true = refl
reads_frozen false = refl

reads_thawed :
    (b : Bool)
    → state_of_text (trim ((if b then codes "0" else codes "THAWED") ++ b'\n' ∷ [])) ≡ ok thawed
unfolding state_of_text trim
reads_thawed true = refl
reads_thawed false = refl

module _ (h : Host) (c : Place) (k : Stored h (push c.path (state_file c))) where
  state-content :
      (t : Text) (r : FreezerState) (s : h.State)
      → k.content s ≡ t ++ b'\n' ∷ []
      → state_of_text (trim (t ++ b'\n' ∷ [])) ≡ ok r
      → state h c s ≡ (ok r, s)
  unfolding state
  state-content t r s e f =
      rw (read_text-content h c (state_file c) k (state_file c) s) (rw e (rw f refl))

  -- In both versions, where the kernel takes the two texts and shows the one last written: `freeze`
  -- succeeds and the state reads as frozen after it, and then `thaw` succeeds and the state reads
  -- as thawed.
  pub state-freeze-thaw :
      (s : h.State)
      → k.Accepted (frozen_text c)
      → k.Accepted (thawed_text c)
      → (s1 : h.State) × (s2 : h.State) × (freeze h c s ≡ (ok tt, s1))
        × (state h c s1 ≡ (ok frozen, s1))
        × (thaw h c s1 ≡ (ok tt, s2))
        × (state h c s2 ≡ (ok thawed, s2))
  unfolding freeze thaw
  state-freeze-thaw s a b =
      let s1 = k.written (frozen_text c) s in
      let s2 = k.written (thawed_text c) s1 in
      (
        s1,
        s2,
        write_value-written h c (state_file c) k (frozen_text c) s a,
        state-content (frozen_text c) frozen s1 (k.kept (frozen_text c) s a) (reads_frozen c.v2),
        write_value-written h c (state_file c) k (thawed_text c) s1 b,
        state-content (thawed_text c) thawed s2 (k.kept (thawed_text c) s1 b) (reads_thawed c.v2),
      )
