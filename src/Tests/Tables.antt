-- ===== src/Tests/Tables.antt =====
-- The tables of lib/definitions.js for the protocol of lib/amqp-definitions-0-9-1.js.
use node_amqp.Prelude.{◌≡◌, refl, true, some, [], inl, inr}
use node_amqp.Definitions.Tables.{get_method, tables_of, lookup, same_codes, method_of, codes}
use node_amqp.Definitions.Protocol.{protocol_classes}
use node_amqp.Definitions.Connection.{connection_class}
use node_amqp.Definitions.Info.{method}
use node_amqp.Definitions.Complete.{In, all_methods, all_differ, tables_of-Finds}

protocol_differs : all_differ (all_methods protocol_classes) ≡ true
unfolding all_differ all_methods method_of same_codes
protocol_differs = refl

close_ok-In :
    In (method_of connection_class (method "closeOk" 51 [])) (all_methods protocol_classes)
unfolding all_methods
close_ok-In = inr (inr (inr (inr (inr (inr (inr (inr (inr (inl refl)))))))))

-- The method that the pair (10, 51) of the wire stands for.
tables_of-Finds_example :
    (get_method 10 51 (tables_of protocol_classes).method_table
      ≡ some (method_of connection_class (method "closeOk" 51 [])))
    × (lookup same_codes (codes "connectionCloseOk") (tables_of protocol_classes).methods
        ≡ some (method_of connection_class (method "closeOk" 51 [])))
unfolding method_of
tables_of-Finds_example = tables_of-Finds protocol_classes _ protocol_differs close_ok-In
