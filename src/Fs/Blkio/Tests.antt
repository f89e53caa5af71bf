-- ===== src/Fs/Blkio/Tests.antt =====
-- The texts of the block I/O controller at concrete contents.
use cgroups_rs.Io.{for_each}
use cgroups_rs.Number.Print.{print}
use cgroups_rs.Fs.Host.{Place, write_value}
use cgroups_rs.Fs.OneFile.{one_file}
use cgroups_rs.Fs.Blkio.Settings.{BlkIoResources, apply}
use cgroups_rs.Fs.Blkio.Writes.{writes, apply-writes}
use cgroups_rs.Base.{inr, some, none, true, ◌≡◌, refl, pos, [], ◌∷◌, ok, returns, arith}
use cgroups_rs.Text.{Text, codes, contains_char}
use cgroups_rs.Fs.Blkio.{
  IoService, default_io_service, parse_io_service, parse_io_stat, parse_blkio_data, io_stat_of,
}
use cgroups_rs.Number.Signed.{parse_int}
use cgroups_rs.Fs.Blkio.IoStat.{io_stat_of-zero}
use cgroups_rs.Fs.Blkio.ServiceText.{service_text, parse_io_service-service_text}

io_stat_of-zero_example :
    io_stat_of
      (codes "8" ∷ codes "0" ∷ [])
      (codes "rbytes=180224")
      (codes "wbytes=0")
      (codes "rios=3")
      (codes "wios=0")
      (codes "dbytes=0")
      (codes "dios=0")
    ≡ returns (record {
      major = pos 8;
      minor = pos 0;
      rbytes = 0;
      wbytes = 0;
      rios = 0;
      wios = 0;
      dbytes = 0;
      dios = 0;
    })
unfolding parse_int contains_char
io_stat_of-zero_example =
    io_stat_of-zero (codes "8") (codes "0") (codes "rbytes=180224") (codes "wbytes=0")
      (codes "rios=3") (codes "wios=0") (codes "dbytes=0") (codes "dios=0") (pos 8) (pos 0) refl
      refl (refl, (refl, (refl, (refl, (refl, (refl, tt))))))

abbrev sda : IoService
sda = record default_io_service { major = pos 8; read = 3; total = 3 }

abbrev sdb : IoService
sdb = record default_io_service { major = pos 8; minor = pos 16; write = 7; total = 7 }

parse_io_service-service_text_example :
    parse_io_service (service_text (sda ∷ sdb ∷ []) 10) ≡ returns (ok (sda ∷ sdb ∷ []))
parse_io_service-service_text_example =
    parse_io_service-service_text sda (sdb ∷ []) 10
      (
        ((omega arith, omega arith), (omega arith, omega arith)),
        (((omega arith, omega arith), (omega arith, omega arith)), tt),
      )
      (ground arith, inr (ground arith), ground arith)
      (
        (omega arith, omega arith, omega arith, omega arith, omega arith, omega arith),
        ((omega arith, omega arith, omega arith, omega arith, omega arith, omega arith), tt),
      )

service_test :
    parse_io_service (codes "8:0 Read 3\n8:0 Total 3\n8:16 Write 7\n8:16 Total 7\nTotal 10\n")
    ≡ returns (ok (sda ∷ sdb ∷ []))
unfolding parse_io_service
service_test = refl

-- A device with the major number 0 is lost: its values are those of the device behind it.
lost_device :
    parse_io_service (codes "0:44 Read 5\n8:16 Write 7\n8:16 Total 7\n")
    ≡ returns (ok (record sdb { read = 5 } ∷ []))
unfolding parse_io_service
lost_device = refl

stat_test :
    parse_io_stat (codes "8:0 rbytes=180224 wbytes=0 rios=3 wios=0 dbytes=0 dios=0\n")
    ≡ returns (
        record {
          major = pos 8;
          minor = pos 0;
          rbytes = 0;
          wbytes = 0;
          rios = 0;
          wios = 0;
          dbytes = 0;
          dios = 0;
        }
        ∷ [])
unfolding parse_io_stat
stat_test = refl

blkio_data_test :
    parse_blkio_data (codes "8:0 454480833999\n259:1 0\n")
    ≡ returns (
        ok (
          record { major = pos 8; minor = pos 0; amount = 454480833999 }
          ∷ record { major = pos 259; minor = pos 1; amount = 0 }
          ∷ []))
unfolding parse_blkio_data
blkio_data_test = refl

abbrev limited : BlkIoResources
limited = record {
  weight = some 100;
  leaf_weight = none;
  weight_device = record { major = 8; minor = 0; weight = none; leaf_weight = some 5 } ∷ [];
  throttle_read_bps_device = record { major = 8; minor = 0; rate = 4096 } ∷ [];
  throttle_read_iops_device = [];
  throttle_write_bps_device = [];
  throttle_write_iops_device = [];
  attrs = (codes "io.latency", codes "8:0 target=10") ∷ [];
}

abbrev group : Place
group = record { base = []; path = codes "/g"; v2 = true }

apply-writes_example :
    apply one_file group limited
    ≡ for_each
        (λ (w : Text × Text). write_value one_file group w.0 w.1)
        ((codes "io.bfq.weight", codes "100")
          ∷ (codes "blkio.leaf_weight_device", codes "8:0 5")
          ∷ (codes "io.max", codes "8:0 rbps=4096")
          ∷ (codes "io.latency", codes "8:0 target=10")
          ∷ [])
unfolding writes print
apply-writes_example = apply-writes one_file group limited
