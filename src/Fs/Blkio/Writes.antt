-- ===== src/Fs/Blkio/Writes.antt =====
-- `apply` of the block I/O controller as one list of writes.
use mathlib.Core.Path.{fun_ext}
use cgroups_rs.Base.{
  ℕ, ◌≡◌, refl, sym, ◌∙◌, ap, Bool, true, false, List, Option, [], ◌∷◌, ◌++◌, map, if◌then◌else◌,
}
use cgroups_rs.Text.{Text, codes}
use cgroups_rs.Number.Print.{print}
use cgroups_rs.Io.{Io, ◌>>◌, update, for_each}
use cgroups_rs.Io.Loops.{
  items, concat_map, then_pure, for_each-append, for_each-map, for_each-concat_map, update-items,
}
use cgroups_rs.Fs.Error.{Error}
use cgroups_rs.Fs.Host.{Host, Place, write_value, set}
use cgroups_rs.Fs.Blkio.Settings.{
  BlkIoDeviceResource, BlkIoDeviceThrottleResource, BlkIoResources, set_weight, set_leaf_weight,
  set_weight_for_device, set_leaf_weight_for_device, throttle_read_bps_for_device,
  throttle_write_bps_for_device, throttle_read_iops_for_device, throttle_write_iops_for_device,
  set_weights_of, device_line, apply,
}

-- A file of the group and the text for it.
abbrev pub Write : Type 0
Write = Text × Text

abbrev of_device : ℕ → ℕ → Text → Text
of_device major minor what = print major ++ b':' ∷ (print minor ++ b' ' ∷ what)

-- A rate of one device: a keyed entry of `io.max`, or a line of the old file.
abbrev rate : Bool → Text → Text → BlkIoDeviceThrottleResource → Write
rate v2 file key dev =
    if v2
    then (codes "io.max", of_device dev.major dev.minor (key ++ print dev.rate))
    else (file, of_device dev.major dev.minor (print dev.rate))

abbrev weight_file : Bool → Text → Text
weight_file v2 file = if v2 then codes "io.bfq.weight" else file

abbrev device_weights : Bool → BlkIoDeviceResource → List Write
device_weights v2 dev =
    map
      (λ w. (weight_file v2 (codes "blkio.weight_device"), of_device dev.major dev.minor (print w)))
      (items dev.weight)
    ++ map (λ w. (codes "blkio.leaf_weight_device", of_device dev.major dev.minor (print w)))
        (items dev.leaf_weight)

-- All that is to be written, in order.
unfoldable pub writes : Bool → BlkIoResources → List Write
writes v2 res =
    map (λ w. (weight_file v2 (codes "blkio.weight"), print w)) (items res.weight)
    ++ (map (λ w. (codes "blkio.leaf_weight", print w)) (items res.leaf_weight)
        ++ (concat_map (device_weights v2) res.weight_device
            ++ (map (rate v2 (codes "blkio.throttle.read_bps_device") (codes "rbps="))
                  res.throttle_read_bps_device
                ++ (map (rate v2 (codes "blkio.throttle.write_bps_device") (codes "wbps="))
                      res.throttle_write_bps_device
                    ++ (map (rate v2 (codes "blkio.throttle.read_iops_device") (codes "riops="))
                          res.throttle_read_iops_device
                        ++ (map
                              (rate v2 (codes "blkio.throttle.write_iops_device") (codes "wiops="))
                              res.throttle_write_iops_device
                            ++ res.attrs))))))

module _ (h : Host) where
  open h use {State}

  abbrev write : Place → Write → Io State Error (Unit {0})
  write c w = write_value h c w.0 w.1

  abbrev run : Place → List Write → Io State Error (Unit {0})
  run c = for_each (write c)

  runs_after :
      (c : Place) (xs ys : List Write) (m n : Io State Error (Unit {0}))
      → m ≡ run c xs
      → n ≡ run c ys
      → (m >> n) ≡ run c (xs ++ ys)
  runs_after c xs ys m n e g = rw (e, g) (sym (for_each-append (write c) xs ys))

  runs-update :
      (c : Place) (set_func : ℕ → Io State Error (Unit {0})) (g : ℕ → Write) (o : Option ℕ)
      → ((w : ℕ) → set_func w ≡ write c (g w))
      → update set_func o ≡ run c (map g (items o))
  runs-update c set_func g o e =
      update-items set_func o
      ∙ ap (λ f. for_each f (items o)) (fun_ext e)
      ∙ sym (for_each-map (write c) g (items o))

  -- The limit of one device in either version.
  rate_write :
      (c : Place) (b : Bool) (file key : Text) (dev : BlkIoDeviceThrottleResource)
      → (if b
          then write_value h c (codes "io.max") (device_line dev.major dev.minor key dev.rate)
          else write_value h c file (device_line dev.major dev.minor [] dev.rate))
        ≡ write c (rate b file key dev)
  rate_write c true file key dev = refl
  rate_write c false file key dev = refl

  runs-rates :
      (c : Place) (file key : Text) (devs : List BlkIoDeviceThrottleResource)
      → for_each
          (λ dev.
            if c.v2
            then write_value h c (codes "io.max") (device_line dev.major dev.minor key dev.rate)
            else write_value h c file (device_line dev.major dev.minor [] dev.rate))
          devs
        ≡ run c (map (rate c.v2 file key) devs)
  runs-rates c file key devs =
      ap (λ f. for_each f devs) (fun_ext (rate_write c c.v2 file key))
      ∙ sym (for_each-map (write c) (rate c.v2 file key) devs)

  runs-weights :
      (c : Place) (dev : BlkIoDeviceResource)
      → set_weights_of h c dev ≡ run c (device_weights c.v2 dev)
  unfolding set_weight_for_device set_leaf_weight_for_device
  runs-weights c dev =
      runs_after c _ _ _ _ (runs-update c _ _ dev.weight (λ w. refl))
        (runs-update c _ _ dev.leaf_weight (λ w. refl))

  -- `apply` writes the weights, the limits and the customized attributes in that order, each under
  -- the file and in the format of the version, and goes on behind a write that fails: it is a loop
  -- over one list of writes that drops their errors.
  pub apply-writes :
      (c : Place) (res : BlkIoResources)
      → apply h c res ≡ for_each (λ w. write_value h c w.0 w.1) (writes c.v2 res)
  unfolding apply writes set set_weight set_leaf_weight throttle_read_bps_for_device
      throttle_write_bps_for_device throttle_read_iops_for_device throttle_write_iops_for_device
  apply-writes c res = runs_after c _ _ _ _ (runs-update c _ _ res.weight (λ w. refl)) (
      runs_after c _ _ _ _ (runs-update c _ _ res.leaf_weight (λ w. refl)) (
        runs_after c _ _ _ _
          (ap (λ f. for_each f res.weight_device) (fun_ext (runs-weights c))
            ∙ sym (for_each-concat_map (write c) (device_weights c.v2) res.weight_device))
          (runs_after c _ _ _ _
            (runs-rates c (codes "blkio.throttle.read_bps_device") (codes "rbps=")
              res.throttle_read_bps_device)
            (runs_after c _ _ _ _
              (runs-rates c (codes "blkio.throttle.write_bps_device") (codes "wbps=")
                res.throttle_write_bps_device)
              (runs_after c _ _ _ _
                (runs-rates c (codes "blkio.throttle.read_iops_device") (codes "riops=")
                  res.throttle_read_iops_device)
                (runs_after c _ _ _ _
                  (runs-rates c (codes "blkio.throttle.write_iops_device") (codes "wiops=")
                    res.throttle_write_iops_device)
                  (then_pure (run c res.attrs))))))))
