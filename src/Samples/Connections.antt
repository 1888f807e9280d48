-- ===== src/Samples/Connections.antt =====
-- capture/processors/registry.go on a concrete connection.
use sniffy.Common.{◌≡◌}
use sniffy.Common.Bytes.{Text, codes}
use sniffy.Detection.{Processors, new_registry, processor_of}
use sniffy.Detection.Choice.{chosen, processor_of-new}

-- A processor is its name and its connection.
abbrev named : Processors Text (Text × Text)
named = record {
  new_http = λ conn. (codes "http", conn);
  new_socks5 = λ conn. (codes "socks5", conn);
  new_tcp = λ conn. (codes "tcp", conn);
}

processor_of-new_example :
    processor_of named (new_registry named) (codes "GET / HTTP/1.1") (codes "conn")
    ≡ chosen named (codes "GET / HTTP/1.1") (codes "conn")
processor_of-new_example = processor_of-new named (codes "GET / HTTP/1.1") (codes "conn")
