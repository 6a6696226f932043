-- ===== src/Sync/Tests.antt =====
-- A session on a small index, and the theorem there.
use happy_active_everywhere.Base.{ℕ, List, [], map, ok, ◌≡◌, refl, arith, false}
use happy_active_everywhere.Base.Text.{text}
use happy_active_everywhere.Base.Order.{list_ord, nat_ord, lex}
use happy_active_everywhere.Base.Paging.{rows_after}
use happy_active_everywhere.Versions.{bidirectional}
use happy_active_everywhere.Model.Tests.{sample_codec}
use happy_active_everywhere.Share.{by_seq, row_record, stage_all}
use happy_active_everywhere.Share.Tests.{empty_index, index_a, index_a-IsValid}
use happy_active_everywhere.Sync.{Hello, Metadata, start_after, send_metadata, read_metadata}
use happy_active_everywhere.Sync.Exchange.{metadata_exchange}

abbrev hello_of : ℕ → Hello
hello_of sequence = record {
  folder = text "f";
  epoch = text "e";
  sequence = sequence;
  seen_epoch = [];
  seen_sequence = 0;
  mode = bidirectional;
}

metadata_exchange_example :
    (sent : List Metadata) × (send_metadata (λ n. ok tt) index_a (hello_of 1) (hello_of 0)
      ≡ ok sent)
    × (read_metadata
          (λ n. ok tt)
          sample_codec
          (λ hash. false)
          (ok tt)
          (hello_of 1)
          0
          sent
          empty_index
        ≡ stage_all sample_codec
            (λ hash. false)
            empty_index
            (map row_record
              (rows_after (start_after (hello_of 1) (hello_of 0)) (by_seq index_a.entries))))
unfolding start_after list_ord lex
metadata_exchange_example =
    metadata_exchange (λ n. ok tt) (λ n. ok tt) sample_codec (λ hash. false) index_a empty_index
      (hello_of 1) (hello_of 0) (λ n. refl) (λ n. refl) index_a-IsValid refl (omega arith) refl refl
      (omega arith)
