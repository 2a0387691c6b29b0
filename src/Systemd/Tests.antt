-- ===== src/Systemd/Tests.antt =====
-- The theorems on systemd, at two units of which one is allowed.
use pc_monitor.Base.{
  List, [], ◌∷◌, Bytes, codes, bytes_eq, contains_byte, length, All, ◌≡◌, refl, arith,
}
use pc_monitor.Base.Scanner.{drop_cr}
use pc_monitor.Provider.Registry.Ids.{units_of}
use pc_monitor.Systemd.{Props, parse_show, printed, list_units, do_unit}
use pc_monitor.Systemd.Show.{render_show, IsBlock, parse_show-render_show}
use pc_monitor.Systemd.Listed.{IsListed, list_units-IsListed}
use pc_monitor.Systemd.Done.{Outcome, do_unit-Outcome}

abbrev blocks : List Props
blocks =
    ((codes "Id", codes "a.service") ∷ (codes "ActiveState", codes "active") ∷ [])
    ∷ ((codes "Id", codes "b.service") ∷ [])
    ∷ []

blocks-IsBlock : All IsBlock blocks
unfolding contains_byte drop_cr length bytes_eq
blocks-IsBlock = (
  record {
    some_prop = λ e. cc;
    unique = ((refl, tt), (tt, tt));
    props = (
      record {
        plain_name = refl;
        token = record { one_line = refl; no_return = refl; short = omega arith };
      },
      (
        record {
          plain_name = refl;
          token = record { one_line = refl; no_return = refl; short = omega arith };
        },
        tt,
      ),
    );
  },
  (
    record {
      some_prop = λ e. cc;
      unique = (tt, tt);
      props = (
        record {
          plain_name = refl;
          token = record { one_line = refl; no_return = refl; short = omega arith };
        },
        tt,
      );
    },
    tt,
  ),
)

parse_show-render_show_example : parse_show (render_show blocks) ≡ blocks
parse_show-render_show_example = parse_show-render_show blocks blocks-IsBlock

abbrev allowed_units : List Bytes
allowed_units = codes "a.service" ∷ []

list_units-IsListed_example :
    All
      (IsListed allowed_units)
      (units_of (list_units allowed_units (printed (render_show blocks)) 9 9 []).0)
list_units-IsListed_example =
    list_units-IsListed allowed_units (printed (render_show blocks)) 9 9 []

do_unit-Outcome_example :
    Outcome allowed_units
      (codes "a.service")
      (codes "restart")
      (do_unit allowed_units (codes "a.service") (codes "restart"))
do_unit-Outcome_example = do_unit-Outcome allowed_units (codes "a.service") (codes "restart")
